-- ===== src/Checkout/Session/Opening.antt =====
-- backend/internal/service/order.go, CreateCheckoutSession from the call of Stripe on: what becomes of
-- the pending order.
use stripe_payment_integrati.Db.Webhooks.{is_order}
use stripe_payment_integrati.Db.Table.{find_row, update_rows, find_row-update_rows, find_row_sound}
use stripe_payment_integrati.Checkout.Session.Storing.{
  Storable, stored, update_order_session-stores,
}
use stripe_payment_integrati.Db.Orders.{update_order_session, cancel_order, canceled_for}
use stripe_payment_integrati.Webhook.Redelivery.{calm}
use stripe_payment_integrati.Stripe.{CheckoutSession}
use stripe_payment_integrati.Db.{Order, Tables, Result, Error, err, Statement, unavailable}
use stripe_payment_integrati.Checkout.Session.{
  Draft, open_session, build_stripe_session_params, after_stripe, after_persist,
  persist_session_with_retry, persist_attempts, after_attempt, ok, stripe_error,
  compensate_failed_checkout, build_checkout_result,
}
use stripe_payment_integrati.World.{call, Fault, World, Moment, perform, quietly, with_tables}
use stripe_payment_integrati.Checkout.{Host, SessionParams, CheckoutResult}
use stripe_payment_integrati.Prelude.{ℕ, ◌+◌, ◌≡◌, refl, Bool, false, some, [], ◌∷◌}

-- A fault that the service sees as an error.
pub data Silent : Fault → Type 0 where
  silent_refused : Silent Fault.refused
  silent_lost : Silent Fault.reply_lost

Silent-err :
    {f : Fault}
    → Silent f
    → (store : Statement (Unit {0})) (t : ℕ) (db : Tables)
    → (perform f store t db).0 ≡ err unavailable
Silent-err silent_refused store t db = refl
Silent-err silent_lost store t db = refl

module _ (host : Host) (canceled : ℕ → Bool) (d : Draft) (w : World) where
  abbrev pub params : SessionParams
  params = build_stripe_session_params d.id d.number d.input d.lines d.urls

  pub open_session-opens :
      (o : Order) (s : CheckoutSession)
      → host.create_session params d.id ≡ ok s
      → Storable d.id s.id o w.tables.orders
      → open_session host canceled d (quietly w) ≡ (
        ok (build_checkout_result d.id d.number d.input.ui_mode s d.token),
        with_tables w (stored d.id s w.clock w.tables),
      )
  unfolding open_session after_stripe after_persist persist_session_with_retry persist_attempts
      after_attempt call
  open_session-opens o s answer h =
      rw (answer, update_order_session-stores d.id s w.clock w.tables o h) refl

  pub open_session-refused :
      (e : Error)
      → host.create_session params d.id ≡ err e
      → open_session host canceled d (quietly w) ≡ (
        err (stripe_error "failed to create checkout session"),
        with_tables w (cancel_order d.id "stripe_api_error" w.clock w.tables).1,
      )
  unfolding open_session after_stripe call
  open_session-refused e answer = rw answer refl

  module _ (s : CheckoutSession) (m : Moment) (f g h : Fault) (a b c : ℕ) where
    -- the tables after one attempt
    abbrev attempted : Fault → ℕ → Tables → Tables
    attempted f t db = (perform f (update_order_session d.id s.id s.url s.client_secret) t db).1

    abbrev pub thrice : Tables
    thrice =
        attempted h (w.clock + a + b + c)
          (attempted g (w.clock + a + b) (attempted f (w.clock + a) w.tables))

    abbrev pub troubled : World
    troubled = record w {
      schedule = calm a f ∷ calm b g ∷ calm c h ∷ record m { fault = Fault.up } ∷ [];
    }

    abbrev pub end : ℕ
    end = w.clock + a + b + c + m.elapsed

    abbrev pub outcome : Result CheckoutResult × World
    outcome = open_session host canceled d troubled

    run :
        Silent f
        → Silent g
        → Silent h
        → ((n : ℕ) → canceled n ≡ false)
        → host.create_session params d.id ≡ ok s
        → outcome ≡ (
          err (stripe_error "failed to persist checkout session"),
          record w {
            tables = (cancel_order d.id "persist_failed" end (m.others end thrice)).1;
            clock = end;
            schedule = [];
            expired = s.id ∷ w.expired;
          },
        )
    unfolding open_session after_stripe after_persist persist_session_with_retry persist_attempts
        after_attempt call compensate_failed_checkout
    run x y z waits answer =
        let store : Statement (Unit {0}) = update_order_session d.id s.id s.url s.client_secret in
        rw
          (
            answer,
            Silent-err x store (w.clock + a) w.tables,
            waits 0,
            Silent-err y store (w.clock + a + b) (attempted f (w.clock + a) w.tables),
            waits 1,
            Silent-err z store (w.clock + a + b + c)
                (attempted g (w.clock + a + b) (attempted f (w.clock + a) w.tables)),
            waits 2,
          )
          refl

    -- Stripe opened the session, and each of the three attempts to store it failed or lost its reply, while
    -- the request was not canceled. Then the client is told so, Stripe is asked to expire the session,
    -- and the order's row is canceled and gives up its key, whatever status it is in by then: also
    -- where another process, such as the webhook service, has just recorded the payment.
    pub compensation_lem :
        (p : Order)
        → Silent f
        → Silent g
        → Silent h
        → ((n : ℕ) → canceled n ≡ false)
        → host.create_session params d.id ≡ ok s
        → find_row (is_order d.id) (m.others end thrice).orders ≡ some p
        → (outcome.0 ≡ err (stripe_error "failed to persist checkout session"))
          × (outcome.1.expired ≡ s.id ∷ w.expired)
          × (find_row (is_order d.id) outcome.1.tables.orders
              ≡ some (canceled_for "persist_failed" end p))
    unfolding cancel_order
    compensation_lem p x y z waits answer found =
        let row : find_row (is_order d.id) (
              update_rows (is_order d.id) (canceled_for "persist_failed" end)
                (m.others end thrice).orders)
            ≡ some (canceled_for "persist_failed" end p) =
          rw
            (find_row-update_rows (is_order d.id) (is_order d.id)
              (canceled_for "persist_failed" end) (m.others end thrice).orders (λ q. refl))
            (rw found (rw (find_row_sound (is_order d.id) (m.others end thrice).orders p found))) in
        rw (run x y z waits answer) (refl, refl, row)
