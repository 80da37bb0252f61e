-- ===== src/Checkout/Session/Storing.antt =====
-- backend/internal/service/checkout.go, persistSessionWithRetry: the attempts to store a session.
use stripe_payment_integrati.Db.Orders.{null_if_empty}
use stripe_payment_integrati.Prelude.{none, ◌==◌, ◌∙◌}
use stripe_payment_integrati.Webhook.Redelivery.{calm}
use stripe_payment_integrati.Checkout.Session.{
  persist_attempts, after_attempt, persist_session_with_retry,
}
use stripe_payment_integrati.Db.{
  Error, err, canceled_context, Order, Tables, ok, Result, unavailable,
}
use stripe_payment_integrati.World.{call, Fault, Moment, World}
use stripe_payment_integrati.Db.Orders.{taken_by_other, update_order_session, with_session}
use stripe_payment_integrati.Db.Webhooks.{is_order}
use stripe_payment_integrati.Stripe.{CheckoutSession}
use stripe_payment_integrati.Db.Table.{
  any_row, find_row, update_rows, find_row-update_rows, find_row_sound,
}
use stripe_payment_integrati.Prelude.{
  ℕ, ◌+◌, String, ◌≡◌, refl, Bool, true, false, some, Option, List, [], ◌∷◌, arith, length,
  if◌then◌else◌, eq_refl, Bool-cases, inl, inr,
}

-- The order `q` is stored under `id`, and no other order has the session.
pub record Storable (id session : String) (q : Order) (orders : List Order) : Type 0 where
  pub row : find_row (is_order id) orders ≡ some q
  pub free : any_row (taken_by_other id session) orders ≡ false

free-updated :
    (id session url secret : String) (now : ℕ) (orders : List Order)
    → any_row (taken_by_other id session) orders ≡ false
    → any_row
        (taken_by_other id session)
        (update_rows (is_order id) (with_session session url secret now) orders)
      ≡ false
unfolding any_row update_rows
free-updated id session url secret now [] h = refl
free-updated id session url secret now (q ∷ orders) h = elim (Bool-cases (is_order id q)) [
  | inl own ↦
      rw (own, eq_refl session)
        (rw own (free-updated id session url secret now orders (ground arith)))
  | inr other ↦ ground (arith, free-updated id session url secret now orders)
]

abbrev pub stored : String → CheckoutSession → ℕ → Tables → Tables
stored id s now db = record db {
  orders = update_rows (is_order id) (with_session s.id s.url s.client_secret now) db.orders;
}

module _ (id : String) (s : CheckoutSession) (now : ℕ) (db : Tables) (q : Order)
    (h : Storable id s.id q db.orders) where
  pub update_order_session-stores :
      update_order_session id s.id s.url s.client_secret now db ≡ (ok tt, stored id s now db)
  unfolding update_order_session
  update_order_session-stores = rw h.free refl

  pub Storable-stored :
      Storable id s.id (with_session s.id s.url s.client_secret now q) (stored id s now db).orders
  Storable-stored = record {
    row =
        rw
          (find_row-update_rows (is_order id) (is_order id)
            (with_session s.id s.url s.client_secret now) db.orders (λ p. refl))
          (rw h.row (rw (find_row_sound (is_order id) db.orders q h.row)));
    free = free-updated id s.id s.url s.client_secret now db.orders h.free;
  }

-- The faults that a statement meets, each with the time that passes before it.
abbrev pub calmly : List (ℕ × Fault) → List Moment
calmly [] = []
calmly ((t, f) ∷ faults) = calm t f ∷ calmly faults

-- The answer of the last attempt made: the first one that gets through, or the last one.
abbrev pub answered : List (ℕ × Fault) → Error → Result (Unit {0})
answered [] last = err last
answered ((t, Fault.up) ∷ faults) last = ok tt
answered ((t, _) ∷ faults) last = answered faults unavailable

-- Whether an attempt reached the database, its reply or not.
abbrev pub reached : List (ℕ × Fault) → Bool
reached [] = false
reached ((t, Fault.refused) ∷ faults) = reached faults
reached ((t, _) ∷ faults) = true

abbrev nullable : String → Option String
nullable text = if text == "" then none else some text

-- The row with the session, its URL and its secret, each where there is one, as of `t`.
abbrev pub opened : CheckoutSession → ℕ → Order → Order
opened s t q = record q {
  session_id = some s.id;
  checkout_url = nullable s.url;
  client_secret = nullable s.client_secret;
  updated_at = t;
}

-- What becomes of the row `q`, by whether an attempt reached the database.
abbrev pub Left : CheckoutSession → Order → Bool → Order → Type 0
Left s q true r = (t : ℕ) × (r ≡ opened s t q)
Left s q false r = r ≡ q

module _ (canceled : ℕ → Bool) (waits : (n : ℕ) → canceled n ≡ false) (id : String)
    (s : CheckoutSession) where
  pub record After (answer : Result (Unit {0})) (q : Order) (reaches : Bool)
      (outcome : Result (Unit {0}) × World) : Type 0 where
    pub answer_is : outcome.0 ≡ answer
    pub row_left :
        (r : Order) × (find_row (is_order id) outcome.1.tables.orders ≡ some r) × Left s q reaches r

  Left-once : (now : ℕ) (q : Order) → with_session s.id s.url s.client_secret now q ≡ opened s now q
  unfolding null_if_empty
  Left-once now q = refl

  -- A second attempt finds the session there already.
  Left-twice :
      (now : ℕ) (q : Order) (b : Bool) (r : Order)
      → Left s (with_session s.id s.url s.client_secret now q) b r
      → Left s q true r
  Left-twice now q true r (t, same) = (t, same)
  Left-twice now q false r same = (now, same ∙ Left-once now q)

  persist_attempts-After :
      (faults : List (ℕ × Fault)) (attempt : ℕ) (last : Error) (w : World) (q : Order)
      → Storable id s.id q w.tables.orders
      → After (answered faults last) q (reached faults) (
          persist_attempts
            (length faults)
            attempt
            canceled
            id
            s
            last
            (record w { schedule = calmly faults }))
  unfolding persist_attempts call after_attempt
  persist_attempts-After [] attempt last w q h = record {
    answer_is = refl;
    row_left = (q, h.row, refl);
  }
  persist_attempts-After ((t, Fault.up) ∷ faults) attempt last w q h =
      let same = update_order_session-stores id s (w.clock + t) w.tables q h in
      rw same (record {
        answer_is = refl;
        row_left = (
          with_session s.id s.url s.client_secret (w.clock + t) q,
          (Storable-stored id s (w.clock + t) w.tables q h).row,
          (w.clock + t, Left-once (w.clock + t) q),
        );
      })
  persist_attempts-After ((t, Fault.refused) ∷ faults) attempt last w q h = rw (waits attempt) (
      persist_attempts-After faults (attempt + 1) unavailable (record w { clock = w.clock + t }) q
        h)
  persist_attempts-After ((t, Fault.reply_lost) ∷ faults) attempt last w q h =
      let same = update_order_session-stores id s (w.clock + t) w.tables q h in
      let next =
        persist_attempts-After faults (attempt + 1) unavailable
          (record w { tables = stored id s (w.clock + t) w.tables; clock = w.clock + t })
          (with_session s.id s.url s.client_secret (w.clock + t) q)
          (Storable-stored id s (w.clock + t) w.tables q h) in
      let (r, found, kept) = next.row_left in
      rw (waits attempt, same)
        (record {
          answer_is = next.answer_is;
          row_left = (r, found, Left-twice (w.clock + t) q (reached faults) r kept);
        })

  -- The three attempts to store a session, where other processes let the tables be and the request is
  -- not canceled meanwhile: the answer is that of the first attempt that gets through, and an error where
  -- none does. Where an attempt reached the database, even if its reply was lost, the order's row has the
  -- session afterwards with its URL and its secret, and a new time of update, and is otherwise as before;
  -- where none did, it is unchanged.
  pub persist_session_with_retry-After :
      (a b c : ℕ × Fault) (w : World) (q : Order)
      → Storable id s.id q w.tables.orders
      → After (answered (a ∷ b ∷ c ∷ []) canceled_context) q (reached (a ∷ b ∷ c ∷ [])) (
          persist_session_with_retry canceled id s
            (record w { schedule = calmly (a ∷ b ∷ c ∷ []) }))
  unfolding persist_session_with_retry
  persist_session_with_retry-After a b c w q h =
      persist_attempts-After (a ∷ b ∷ c ∷ []) 0 canceled_context w q h
