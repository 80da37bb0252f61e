-- ===== src/Checkout/Session/Keeping.antt =====
-- Opening and storing a session keeps every relation between tables that the statements keep.
use stripe_payment_integrati.Db.Orders.{cancel_order, update_order_session}
use stripe_payment_integrati.Checkout.Session.{
  open_session, after_attempt, persist_attempts, compensate_failed_checkout, after_persist,
  after_stripe, update_order_session, expire_checkout_session, Draft, persist_session_with_retry,
  canceled_context, stripe_error, build_stripe_session_params,
}
use stripe_payment_integrati.Prelude.{◌+◌, ℕ, zero, suc, String, Bool}
use stripe_payment_integrati.Db.{Tables, Result, ok, err, Error, canceled_context}
use stripe_payment_integrati.Rules.{OrderRules}
use stripe_payment_integrati.World.{Try, pure, call, bind}
use stripe_payment_integrati.World.Keeps.{Keeps, Keeps-pure, Keeps-bind, Keeps-call, Keeps-if}
use stripe_payment_integrati.Checkout.{Host}
use stripe_payment_integrati.Stripe.{CheckoutSession}

module _ {R : Tables → Tables → Type 0} (rules : OrderRules R) where
  module _ (host : Host) (canceled : ℕ → Bool) where
    after-Keeps :
        (stop : Bool) (again : Error → Try (Unit {0})) (r : Result (Unit {0}))
        → ((e : Error) → Keeps R (again e))
        → Keeps R (after_attempt stop again r)
    unfolding after_attempt
    after-Keeps stop again (ok u) kf = Keeps-pure rules.order (ok u)
    after-Keeps stop again (err e) kf =
        Keeps-if rules.order stop _ _ (Keeps-pure rules.order _) (kf e)

    attempts-Keeps :
        (n attempt : ℕ) (id : String) (s : CheckoutSession) (last : Error)
        → Keeps R (persist_attempts n attempt canceled id s last)
    unfolding persist_attempts
    attempts-Keeps zero attempt id s last = Keeps-pure rules.order (err last)
    attempts-Keeps (suc n) attempt id s last =
        Keeps-bind rules.order (call (update_order_session id s.id s.url s.client_secret)) _
          (Keeps-call rules.order (update_order_session id s.id s.url s.client_secret)
            (rules.set_session id s.id s.url s.client_secret))
          (λ r. after-Keeps (canceled attempt) _ r (λ e. attempts-Keeps n (attempt + 1) id s e))

    cancel-Keeps :
        {B : Type 0} (id reason : String) (b : B)
        → Keeps R (bind (call (cancel_order id reason)) (λ _. pure b))
    cancel-Keeps id reason b =
        Keeps-bind rules.order _ _
          (Keeps-call rules.order (cancel_order id reason) (rules.cancel id reason))
          (λ _. Keeps-pure rules.order b)

    compensate-Keeps :
        (id session : String) → Keeps R (compensate_failed_checkout host canceled id session)
    unfolding compensate_failed_checkout
    compensate-Keeps id session =
        Keeps-bind rules.order (expire_checkout_session host canceled session) _
          (record { at = λ w fair. (rules.order.refl_at w.tables, fair) })
          (λ _. cancel-Keeps id "persist_failed" tt)

    persisted-Keeps :
        (d : Draft) (s : CheckoutSession) (r : Result (Unit {0}))
        → Keeps R (after_persist host canceled d s r)
    unfolding after_persist
    persisted-Keeps d s (ok _) = Keeps-pure rules.order _
    persisted-Keeps d s (err e) =
        Keeps-bind rules.order _ _ (compensate-Keeps d.id s.id)
          (λ _. Keeps-pure rules.order (err (stripe_error "failed to persist checkout session")))

    opened-Keeps :
        (d : Draft) (r : Result CheckoutSession) → Keeps R (after_stripe host canceled d r)
    unfolding after_stripe persist_session_with_retry
    opened-Keeps d (ok s) =
        Keeps-bind rules.order _ _ (attempts-Keeps 3 0 d.id s canceled_context)
          (persisted-Keeps d s)
    opened-Keeps d (err e) = cancel-Keeps d.id "stripe_api_error" _

    pub open-Keeps : (d : Draft) → Keeps R (open_session host canceled d)
    unfolding open_session
    open-Keeps d = opened-Keeps d (
        host.create_session (build_stripe_session_params d.id d.number d.input d.lines d.urls) d.id)
