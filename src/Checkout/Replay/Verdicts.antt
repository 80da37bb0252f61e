-- ===== src/Checkout/Replay/Verdicts.antt =====
-- backend/internal/service/checkout.go: what a second request under an idempotency key is answered.
use stripe_payment_integrati.Db.Orders.{get_entry}
use stripe_payment_integrati.Prelude.{◌⊎◌, ◌∙◌, Option-cases, inl, inr, ap, Bool-cases, subst}
use stripe_payment_integrati.World.Scan.{scan_order, with_items}
use stripe_payment_integrati.Db.Orders.{list_order_items}
use stripe_payment_integrati.Db.OrderRows.{found-affected, found-updated}
use stripe_payment_integrati.Checkout.Access.{generate_order_access_token}
use stripe_payment_integrati.Db.Orders.{
  update_order_access_token_hash, is_canceled, with_token_hash, without_key,
  clear_order_idempotency_key, get_order_by_idempotency_key, has_idempotency_key,
}
use stripe_payment_integrati.Checkout.Replay.{
  renew_token, ok, extract_request_hash, idempotency_conflict, checkout_in_progress,
  replay_checkout, replay_existing, resolve_idempotency,
}
use stripe_payment_integrati.World.{call, World, draw_token, quietly}
use stripe_payment_integrati.Db.{err, Order, Result, Tables, no_randomness}
use stripe_payment_integrati.Prelude.{
  not, Bool, ◌&&◌, suc, String, ◌==◌, ◌≡◌, refl, true, false, some, none, Option, or_empty, arith,
  eq_refl, eq_iff,
}
use stripe_payment_integrati.Db.Webhooks.{is_order}
use stripe_payment_integrati.Db.Table.{find_row, find_row-update_rows, Keyed, find_row-Keyed}
use stripe_payment_integrati.Checkout.{Host, CheckoutResult}

-- The order was made for the body of the request, or notes no body.
abbrev pub FitsBody : String → Order → Type 0
FitsBody body_hash o =
    (get_entry "_request_body_hash" o.metadata ≡ none)
    ⊎ (get_entry "_request_body_hash" o.metadata ≡ some "")
    ⊎ (get_entry "_request_body_hash" o.metadata ≡ some body_hash)

-- The order's session is open: it has an id.
abbrev pub HasSession : Order → Type 0
HasSession o = (session : String) × (o.session_id ≡ some session) × ((session == "") ≡ false)

-- Where the order under the key stands, and what the request is answered.
pub data KeyVerdict (host : Host) (body_hash : String) (w : World) (o : Order)
    : Result (Option CheckoutResult) × World → Type 0 where
  -- the order was canceled: it gives up the key, and a new checkout may begin
  freed :
      {db : Tables}
      → is_canceled o.status ≡ true
      → find_row (is_order o.id) db.orders ≡ some (without_key w.clock o)
      → KeyVerdict host body_hash w o (ok none, record (quietly w) { tables = db })
  conflicts :
      is_canceled o.status ≡ false
      → (extract_request_hash o.metadata == "") ≡ false
      → (extract_request_hash o.metadata == body_hash) ≡ false
      → KeyVerdict host body_hash w o (err idempotency_conflict, quietly w)
  in_progress :
      is_canceled o.status ≡ false
      → FitsBody body_hash o
      → or_empty o.session_id ≡ ""
      → KeyVerdict host body_hash w o (err checkout_in_progress, quietly w)
  no_token :
      is_canceled o.status ≡ false
      → FitsBody body_hash o
      → HasSession o
      → w.entropy w.drawn ≡ none
      → KeyVerdict host body_hash w o
          (err no_randomness, record (quietly w) { drawn = suc w.drawn })
  -- the same order and session again, with a new token
  replayed :
      {db : Tables} (token : String)
      → is_canceled o.status ≡ false
      → FitsBody body_hash o
      → HasSession o
      → w.entropy w.drawn ≡ some token
      → find_row (is_order o.id) db.orders ≡ some (with_token_hash (host.digest token) w.clock o)
      → KeyVerdict host body_hash w o (
        ok (some (replay_checkout o token)),
        record (quietly w) { tables = db; drawn = suc w.drawn },
      )

fits_body :
    (body_hash : String) (o : Order)
    → (not (extract_request_hash o.metadata == "")
        && not (extract_request_hash o.metadata == body_hash))
      ≡ false
    → FitsBody body_hash o
unfolding extract_request_hash
fits_body body_hash o d = elim (Option-cases (get_entry "_request_body_hash" o.metadata)) [
  | inl unnoted ↦ inl unnoted
  | inr (h, noted) ↦ inr (elim (Bool-cases (h == "")) [
    | inl blank ↦ inl (noted ∙ ap some ((eq_iff h "").0 blank))
    | inr written ↦ elim (Bool-cases (h == body_hash)) [
      | inl same ↦ inr (noted ∙ ap some ((eq_iff h body_hash).0 same))
      | inr other ↦ absurd (ground (arith, ap or_empty noted))
    ]
  ])
]

has_open : (o : Order) → (or_empty o.session_id == "") ≡ false → HasSession o
has_open o h = elim (Option-cases o.session_id) [
  | inl missing ↦
      absurd (ground (arith, subst (λ q. (or_empty q == "") ≡ false) missing h, eq_refl ""))
  | inr (session, there) ↦ (session, there, subst (λ q. (or_empty q == "") ≡ false) there h)
]

module _ (host : Host) (body_hash : String) (w : World) (o : Order)
    (found : find_row (is_order o.id) w.tables.orders ≡ some o) where
  renewed :
      (drawn : Option String)
      → w.entropy w.drawn ≡ drawn
      → is_canceled o.status ≡ false
      → FitsBody body_hash o
      → HasSession o
      → KeyVerdict host body_hash w o (renew_token host o (quietly w))
  unfolding renew_token call update_order_access_token_hash draw_token generate_order_access_token
  renewed none dry live fits opened = rw dry (no_token live fits opened dry)
  renewed (some token) drawn live fits opened =
      rw
        (
          drawn,
          found-affected (is_order o.id) (with_token_hash (host.digest token) w.clock)
              w.tables.orders o found,
        )
        (replayed token live fits opened drawn (
          found-updated (is_order o.id) (with_token_hash (host.digest token) w.clock)
            w.tables.orders o found (λ q. refl)))

  live_order :
      (differs empty : Bool)
      → (not (extract_request_hash o.metadata == "")
          && not (extract_request_hash o.metadata == body_hash))
        ≡ differs
      → (or_empty o.session_id == "") ≡ empty
      → is_canceled o.status ≡ false
      → KeyVerdict host body_hash w o (replay_existing host body_hash o (quietly w))
  unfolding replay_existing
  live_order true empty d s live = rw (live, d) (conflicts live (ground arith) (ground arith))
  live_order false true d s live =
      rw (live, d, s)
        (in_progress live (fits_body body_hash o d) ((eq_iff (or_empty o.session_id) "").0 s))
  live_order false false d s live =
      rw (live, d, s)
        (renewed (w.entropy w.drawn) refl live (fits_body body_hash o d) (has_open o s))

  existing-KeyVerdict :
      (canceled : Bool)
      → is_canceled o.status ≡ canceled
      → KeyVerdict host body_hash w o (replay_existing host body_hash o (quietly w))
  unfolding replay_existing call clear_order_idempotency_key
  existing-KeyVerdict true h = rw h (
      freed h (
        rw
          (find_row-update_rows (is_order o.id) (λ q. is_order o.id q && is_canceled q.status)
            (without_key w.clock) w.tables.orders (λ q. refl))
          (rw found (rw (eq_refl o.id, h)))))
  existing-KeyVerdict false h = live_order _ _ refl refl h

-- An undisturbed second request under a key that an order has: where that order is canceled, the key
-- is freed; where it was made for another body, the request is a conflict; where it was made for this
-- body, or notes none, and has no session yet, it is in progress; and where it has a session, the same
-- order and session are given again with a new token, whose hash is then in the order's row, or, where no
-- token can be drawn, an error. No other column of the row changes, apart from the time of the update.
pub resolve_idempotency-KeyVerdict :
    (host : Host) (key body_hash : String) (w : World) (o : Order)
    → (key == "") ≡ false
    → Keyed (λ (q : Order). q.id) w.tables.orders
    → find_row (has_idempotency_key key) w.tables.orders ≡ some o
    → KeyVerdict host body_hash w o (resolve_idempotency host key body_hash (quietly w))
unfolding resolve_idempotency call get_order_by_idempotency_key scan_order with_items
    list_order_items
resolve_idempotency-KeyVerdict host key body_hash w o named keyed found =
    let own : find_row (is_order o.id) w.tables.orders ≡ some o =
      find_row-Keyed (λ q. q.id) (has_idempotency_key key) w.tables.orders o keyed found in
    rw (named, found) (existing-KeyVerdict host body_hash w o own (is_canceled o.status) refl)
