-- ===== src/Db/Soundness/Rows.antt =====
-- What updates and inserts do to a sound table.
use stripe_payment_integrati.Prelude.{
  ℕ, String, ◌≡◌, refl, Bool, true, false, Option, none, some, List, [], ◌∷◌, is_some, arith,
  Bool-cases, inl, inr, coalesce,
}
use stripe_payment_integrati.Db.{Tables, Order, WebhookEvent, Customer, SessionRow}
use stripe_payment_integrati.Domain.{OrderStatus}
use stripe_payment_integrati.Db.Table.{find_row, update_rows, any_row, Keyed, Keyed-update_rows}
use stripe_payment_integrati.Db.Webhooks.{is_settled, moved_to, refunded_at, may_refund, is_paid}
use stripe_payment_integrati.Db.Soundness.{Every, OrderOk, SoundRows, Sound}

module _ {A : Type 0} where
  pub Every-update_rows :
      (P : A → Type 0) (q : A → Bool) (f : A → A) (t : List A)
      → ((a : A) → q a ≡ true → P a → P (f a))
      → Every P t
      → Every P (update_rows q f t)
  unfolding update_rows
  Every-update_rows P q f [] keeps all = tt
  Every-update_rows P q f (a ∷ t) keeps (p, all) = elim (Bool-cases (q a)) [
    | inl h ↦ rw h (keeps a h p, Every-update_rows P q f t keeps all)
    | inr h ↦ rw h (p, Every-update_rows P q f t keeps all)
  ]

  -- A row that clashes with none has a new key.
  pub find_row-fresh :
      (p clash : A → Bool) (t : List A)
      → ((a : A) → clash a ≡ false → p a ≡ false)
      → any_row clash t ≡ false
      → find_row p t ≡ none
  unfolding find_row any_row
  find_row-fresh p clash [] apart h = refl
  find_row-fresh p clash (a ∷ t) apart h = elim (Bool-cases (clash a)) [
    | inl c ↦ absurd (ground arith)
    | inr c ↦ rw (apart a c) (find_row-fresh p clash t apart (ground arith))
  ]

is_some-coalesce : (a b : Option ℕ) → is_some b ≡ true → is_some (coalesce a b) ≡ true
is_some-coalesce none b h = h
is_some-coalesce (some t) b h = refl

is_some-coalesce_first : (a b : Option ℕ) → is_some a ≡ true → is_some (coalesce a b) ≡ true
is_some-coalesce_first none b h = cc
is_some-coalesce_first (some t) b h = refl

pub moved_to-OrderOk :
    (s : OrderStatus) (intent : Option String) (paid : Option ℕ) (now : ℕ) (o : Order)
    → (is_settled s ≡ true → is_some paid ≡ true)
    → OrderOk o
    → OrderOk (moved_to s intent paid now o)
moved_to-OrderOk s intent paid now o stamped fine = record {
  positive = fine.positive;
  known_mode = fine.known_mode;
  unowned = fine.unowned;
  stamped = λ h. is_some-coalesce_first paid o.paid_at (stamped h);
}

paid_settles : (s : OrderStatus) → is_paid s ≡ true → is_settled s ≡ true
paid_settles OrderStatus.paid h = refl
paid_settles _ h = cc

pub refunded_at-OrderOk :
    (now : ℕ) (o : Order) → may_refund o ≡ true → OrderOk o → OrderOk (refunded_at now o)
refunded_at-OrderOk now o refunds fine = record {
  positive = fine.positive;
  known_mode = fine.known_mode;
  unowned = fine.unowned;
  stamped = λ h. fine.stamped (paid_settles o.status refunds);
}

-- Updates of one table that keep its keys.
module _ (db : Tables) (s : Sound db) where
  pub orders-updated :
      (q : Order → Bool) (f : Order → Order)
      → ((o : Order) → (f o).id ≡ o.id)
      → ((o : Order) → q o ≡ true → OrderOk o → OrderOk (f o))
      → SoundRows (update_rows q f db.orders) db.events db.customers db.sessions
  orders-updated q f same keeps = record {
    orders_ok = Every-update_rows OrderOk q f db.orders keeps s.orders_ok;
    orders_keyed = Keyed-update_rows (λ o. o.id) f same q db.orders s.orders_keyed;
    events_keyed = s.events_keyed;
    customers_keyed = s.customers_keyed;
    sessions_keyed = s.sessions_keyed;
  }

  pub with_events :
      (events : List WebhookEvent)
      → Keyed (λ e. e.stripe_event_id) events
      → SoundRows db.orders events db.customers db.sessions
  with_events events keyed = record {
    orders_ok = s.orders_ok;
    orders_keyed = s.orders_keyed;
    events_keyed = keyed;
    customers_keyed = s.customers_keyed;
    sessions_keyed = s.sessions_keyed;
  }

  pub events-updated :
      (q : WebhookEvent → Bool) (f : WebhookEvent → WebhookEvent)
      → ((e : WebhookEvent) → (f e).stripe_event_id ≡ e.stripe_event_id)
      → SoundRows db.orders (update_rows q f db.events) db.customers db.sessions
  events-updated q f same =
      with_events (update_rows q f db.events)
        (Keyed-update_rows (λ e. e.stripe_event_id) f same q db.events s.events_keyed)

  pub with_customers :
      (customers : List Customer)
      → Keyed (λ c. c.id) customers
      → SoundRows db.orders db.events customers db.sessions
  with_customers customers keyed = record {
    orders_ok = s.orders_ok;
    orders_keyed = s.orders_keyed;
    events_keyed = s.events_keyed;
    customers_keyed = keyed;
    sessions_keyed = s.sessions_keyed;
  }

  pub customers-updated :
      (q : Customer → Bool) (f : Customer → Customer)
      → ((c : Customer) → (f c).id ≡ c.id)
      → SoundRows db.orders db.events (update_rows q f db.customers) db.sessions
  customers-updated q f same =
      with_customers (update_rows q f db.customers)
        (Keyed-update_rows (λ c. c.id) f same q db.customers s.customers_keyed)

  pub with_sessions :
      (sessions : List SessionRow)
      → Keyed (λ r. r.token_hash) sessions
      → SoundRows db.orders db.events db.customers sessions
  with_sessions sessions keyed = record {
    orders_ok = s.orders_ok;
    orders_keyed = s.orders_keyed;
    events_keyed = s.events_keyed;
    customers_keyed = s.customers_keyed;
    sessions_keyed = keyed;
  }

  pub sessions-updated :
      (q : SessionRow → Bool) (f : SessionRow → SessionRow)
      → ((r : SessionRow) → (f r).token_hash ≡ r.token_hash)
      → SoundRows db.orders db.events db.customers (update_rows q f db.sessions)
  sessions-updated q f same =
      with_sessions (update_rows q f db.sessions)
        (Keyed-update_rows (λ r. r.token_hash) f same q db.sessions s.sessions_keyed)
