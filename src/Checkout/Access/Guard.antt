-- ===== src/Checkout/Access/Guard.antt =====
-- backend/internal/service/order.go: who may read an order.
use stripe_payment_integrati.Db.Webhooks.{is_order}
use stripe_payment_integrati.Db.Table.{find_row, find_row_sound}
use stripe_payment_integrati.Db.Orders.{
  list_order_items, get_order_by_id, get_order_by_session_id, has_session,
}
use stripe_payment_integrati.World.{pure, call}
use stripe_payment_integrati.World.Yields.{
  OnOk, Yields, Yields-then, Yields-call, Yields-try_bind, Yields-if,
}
use stripe_payment_integrati.Db.{Order, OrderItem, Result, Statement, Tables, err}
use stripe_payment_integrati.Checkout.Access.{
  verify_order_access_token, guarded, verify_order_access, ok, reveal, try_bind, get_order,
  get_order_by_session, valid_order_id,
}
use stripe_payment_integrati.World.Scan.{scan_order, with_items}
use stripe_payment_integrati.Prelude.{
  or_empty, starts_with, ℕ, String, ◌==◌, ◌≡◌, refl, Bool, true, false, inl, inr, arith, Bool-cases,
  Option, none, some, List, ap, sym, eq_iff,
}
use stripe_payment_integrati.Checkout.{Host}

-- The request shows a token, and the order's row has the hash of that token.
pub record Shown (host : Host) (token : String) (o : Order) : Type 0 where
  pub has_token : (token == "") ≡ false
  pub hashed : o.access_token_hash ≡ some (host.digest token)

-- An answer that has an order has one that the request was for, and the token of that order.
abbrev pub Authorized : Host → String → (Order → Bool) → Option (Order × List OrderItem) → Type 0
Authorized host token asked none = Unit
Authorized host token asked (some (o, items)) = (asked o ≡ true) × Shown host token o

verify-Shown :
    (host : Host) (token : String) (stored : Option String)
    → verify_order_access_token host token (or_empty stored) ≡ true
    → ((token == "") ≡ false) × (stored ≡ some (host.digest token))
unfolding verify_order_access_token
verify-Shown host token none h = absurd (ground arith)
verify-Shown host token (some s) h = elim (Bool-cases (token == "")) [
  | inl bare ↦ absurd (ground arith)
  | inr shown ↦ elim (Bool-cases (s == "")) [
    | inl blank ↦ absurd (ground arith)
    | inr stored ↦ (shown, ap some (sym ((eq_iff (host.digest token) s).0 (ground arith))))
  ]
]

module _ (host : Host) (token : String) (asked : Order → Bool) where
  AskedFor : Option Order → Type 0
  AskedFor none = Unit
  AskedFor (some o) = asked o ≡ true

  AskedWith : Option (Order × List OrderItem) → Type 0
  AskedWith none = Unit
  AskedWith (some (o, items)) = asked o ≡ true

  verify_order_access-Shown :
      (o : Order) → verify_order_access host o token ≡ ok tt → Shown host token o
  unfolding verify_order_access
  verify_order_access-Shown o h =
      elim (Bool-cases (verify_order_access_token host token (or_empty o.access_token_hash))) [
        | inl v ↦
            let (x, y) = verify-Shown host token o.access_token_hash v in
            record { has_token = x; hashed = y }
        | inr v ↦ absurd (ground arith)
      ]

  by_verdict :
      (o : Order) (items : List OrderItem) (r : Result (Unit {0}))
      → asked o ≡ true
      → verify_order_access host o token ≡ r
      → OnOk (Authorized host token asked) (reveal (o, items) r)
  unfolding reveal
  by_verdict o items (ok u) a h = (a, verify_order_access-Shown o h)
  by_verdict o items (err e) a h = tt

  guarded-Authorized :
      (found : Option (Order × List OrderItem))
      → AskedWith found
      → OnOk (Authorized host token asked) (guarded host token found)
  unfolding guarded AskedWith
  guarded-Authorized none a = tt
  guarded-Authorized (some (o, items)) a =
      by_verdict o items (verify_order_access host o token) a refl

  rows : (found : Option Order) → AskedFor found → Yields (OnOk AskedWith) (with_items found)
  unfolding with_items AskedFor AskedWith
  rows none a = record { at = λ w. tt }
  rows (some o) a =
      Yields-try_bind (call (list_order_items o.id)) _ (λ items. record { at = λ w. a })

  -- A query by `asked`, then the items, then the token.
  scanned-Authorized :
      (query : Statement (Option Order))
      → ((t : ℕ) (db : Tables) → OnOk AskedFor (query t db).0)
      → Yields
          (OnOk (Authorized host token asked))
          (try_bind (scan_order query) (λ found. pure (guarded host token found)))
  unfolding scan_order with_items
  scanned-Authorized query h =
      Yields-then AskedWith (Authorized host token asked) (scan_order query) _
        (λ found a. record { at = λ w. guarded-Authorized found a })
        (Yields-then AskedFor AskedWith (call query) with_items rows (Yields-call AskedFor query h))

  selects : (db : List Order) → OnOk AskedFor (ok (find_row asked db))
  unfolding AskedFor
  selects db = go (find_row asked db) refl
    where
      go : (r : Option Order) → find_row asked db ≡ r → AskedFor r
      go none h = tt
      go (some o) h = find_row_sound asked db o h

-- Under any interference and any failures, an order is given out only to a request that shows a token
-- whose hash is in the order's row, and only the order of the id, or of the session, that was asked for.
pub reads_need_token :
    (host : Host) (id session token : String)
    → Yields (OnOk (Authorized host token (is_order id))) (get_order host id token)
      × Yields
          (OnOk (Authorized host token (has_session session)))
          (get_order_by_session host session token)
unfolding get_order get_order_by_session get_order_by_id get_order_by_session_id
reads_need_token host id session token = (
  Yields-if (valid_order_id host id) _ _
      (scanned-Authorized host token (is_order id) (get_order_by_id id)
        (λ t db. selects host token (is_order id) db.orders))
      (record { at = λ w. tt }),
  Yields-if (starts_with session "cs_") _ _
      (scanned-Authorized host token (has_session session) (get_order_by_session_id session)
        (λ t db. selects host token (has_session session) db.orders))
      (record { at = λ w. tt }),
)
