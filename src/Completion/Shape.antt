-- ===== src/Completion/Shape.antt =====
-- backend/internal/service/webhook.go, buildCompletion: which completions events ask for.
use stripe_payment_integrati.World.Scan.{row_of}
use stripe_payment_integrati.Prelude.{String, ◌==◌, some, [], ◌∷◌, ℕ, Option, Bool}
use stripe_payment_integrati.Domain.{OrderStatus}
use stripe_payment_integrati.Db.{Order, Result, ok, err, EventType}
use stripe_payment_integrati.Db.Webhooks.{WebhookCompletion}
use stripe_payment_integrati.World.{pure}
use stripe_payment_integrati.World.Yields.{Yields, OnOk, Yields-try_bind, Yields-if}
use stripe_payment_integrati.Stripe.{Event, CheckoutSession, Charge, Sdk, PaymentStatus}
use stripe_payment_integrati.Completion.{
  no_change, or_error, lift, parse_session, parse_charge, resolve_webhook_order, refund_completion,
  refunded_charge, completion_charge_refunded, session_completion, completed_session,
  completion_session_completed, succeeded_completion, completion_async_succeeded,
  completion_async_failed, completion_session_expired, completion_for, build_completion,
  is_complete, verify_charge_amount, verify_checkout_session_amount, charge_payment_intent_id,
  refund_for, Option, Bool,
}

-- A completion leaves the status alone, or is one of four moves.
pub data Shape : WebhookCompletion → Type 0 where
  unchanged :
      {id : String} {order : Option String} {refund : Bool}
      → Shape (record (no_change id) { order_id = order; refund_only = refund })
  pays :
      {id order : String} {intent : Option String} {now : ℕ}
      → Shape (record (no_change id) {
        order_id = some order;
        new_status = some OrderStatus.paid;
        payment_intent_id = intent;
        paid_at = some now;
        allowed_from = OrderStatus.pending ∷ OrderStatus.processing ∷ [];
      })
  starts :
      {id order : String} {intent : Option String}
      → Shape (record (no_change id) {
        order_id = some order;
        new_status = some OrderStatus.processing;
        payment_intent_id = intent;
        allowed_from = OrderStatus.pending ∷ [];
      })
  fails :
      {id order : String}
      → Shape (record (no_change id) {
        order_id = some order;
        new_status = some OrderStatus.failed;
        allowed_from = OrderStatus.pending ∷ OrderStatus.processing ∷ [];
      })
  expires :
      {id order : String}
      → Shape (record (no_change id) {
        order_id = some order;
        new_status = some OrderStatus.expired;
        allowed_from = OrderStatus.pending ∷ [];
      })

pub session_completion-Shape :
    (sdk : Sdk) (o : Order) (s : CheckoutSession) (id : String) (now : ℕ)
    → Shape (session_completion sdk o s id now)
unfolding session_completion
session_completion-Shape sdk o s id now = by_status s.payment_status
  where
    by_status :
        (p : PaymentStatus)
        → Shape (session_completion sdk o (record s { payment_status = p }) id now)
    by_status PaymentStatus.paid = pays
    by_status PaymentStatus.unpaid = starts
    by_status PaymentStatus.no_payment_required = unchanged
    by_status (PaymentStatus.other t) = unchanged

refund_for-Shape :
    (sdk : Sdk) (s : OrderStatus) (v : Result (Unit {0})) (o : Order) (id : String)
    → OnOk Shape (refund_for sdk s v o id)
unfolding refund_for
refund_for-Shape sdk OrderStatus.refunded v o id = unchanged
refund_for-Shape sdk OrderStatus.paid (ok _) o id = unchanged
refund_for-Shape sdk OrderStatus.paid (err e) o id = tt
refund_for-Shape sdk _ v o id = tt

refund_completion-Shape :
    (sdk : Sdk) (o : Order) (charge : Charge) (id : String)
    → OnOk Shape (refund_completion sdk o charge id)
unfolding refund_completion
refund_completion-Shape sdk o charge id =
    refund_for-Shape sdk o.status (verify_charge_amount sdk o charge) o id

module _ (sdk : Sdk) where
  Yields-ok : (c : WebhookCompletion) → Shape c → Yields (OnOk Shape) (pure (ok c))
  Yields-ok c h = record { at = λ w. h }

  refunded_charge-Shape :
      (charge : Charge) (id : String) → Yields (OnOk Shape) (refunded_charge sdk charge id)
  unfolding refunded_charge
  refunded_charge-Shape charge id =
      Yields-if (charge_payment_intent_id sdk charge == "") _ _ (record { at = λ w. tt })
        (Yields-try_bind _ _ (λ found.
          Yields-try_bind (lift (or_error _ (row_of found))) _
            (λ o. record { at = λ w. refund_completion-Shape sdk o charge id })))

  charge_refunded-Shape : (e : Event) → Yields (OnOk Shape) (completion_charge_refunded sdk e)
  unfolding completion_charge_refunded
  charge_refunded-Shape e = Yields-try_bind (lift (parse_charge sdk e)) _ (λ charge.
      Yields-if charge.refunded _ _ (refunded_charge-Shape charge e.id)
        (Yields-ok (no_change e.id) unchanged))

  completed_session-Shape :
      (s : CheckoutSession) (id : String) → Yields (OnOk Shape) (completed_session sdk s id)
  unfolding completed_session
  completed_session-Shape s id = Yields-try_bind (resolve_webhook_order sdk s.id) _ (λ o.
      Yields-try_bind (lift (verify_checkout_session_amount sdk o s)) _
        (λ _. record { at = λ w. session_completion-Shape sdk o s id w.clock }))

  session_completed-Shape : (e : Event) → Yields (OnOk Shape) (completion_session_completed sdk e)
  unfolding completion_session_completed
  session_completed-Shape e = Yields-try_bind (lift (parse_session sdk e)) _ (λ s.
      Yields-if (is_complete s.status) _ _ (completed_session-Shape s e.id)
        (Yields-ok (no_change e.id) unchanged))

  async_succeeded-Shape : (e : Event) → Yields (OnOk Shape) (completion_async_succeeded sdk e)
  unfolding completion_async_succeeded succeeded_completion
  async_succeeded-Shape e = Yields-try_bind (lift (parse_session sdk e)) _ (λ s.
      Yields-try_bind (resolve_webhook_order sdk s.id) _ (λ o.
        Yields-try_bind (lift (verify_checkout_session_amount sdk o s)) _
          (λ _. record { at = λ w. pays })))

  async_failed-Shape : (e : Event) → Yields (OnOk Shape) (completion_async_failed sdk e)
  unfolding completion_async_failed
  async_failed-Shape e =
      Yields-try_bind (lift (parse_session sdk e)) _
        (λ s. Yields-try_bind (resolve_webhook_order sdk s.id) _ (λ o. record { at = λ w. fails }))

  session_expired-Shape : (e : Event) → Yields (OnOk Shape) (completion_session_expired sdk e)
  unfolding completion_session_expired
  session_expired-Shape e =
      Yields-try_bind (lift (parse_session sdk e)) _ (λ s.
        Yields-try_bind (resolve_webhook_order sdk s.id) _ (λ o. record { at = λ w. expires }))

  completion_for-Shape : (t : EventType) (e : Event) → Yields (OnOk Shape) (completion_for sdk t e)
  unfolding completion_for
  completion_for-Shape EventType.session_completed e = session_completed-Shape e
  completion_for-Shape EventType.async_payment_succeeded e = async_succeeded-Shape e
  completion_for-Shape EventType.async_payment_failed e = async_failed-Shape e
  completion_for-Shape EventType.session_expired e = session_expired-Shape e
  completion_for-Shape EventType.charge_refunded e = charge_refunded-Shape e
  completion_for-Shape (EventType.other s) e = Yields-ok (no_change e.id) unchanged

  -- Whatever the event, the tables and the schedule, a completion that is built has one of the shapes.
  pub build_completion-Shape : (e : Event) → Yields (OnOk Shape) (build_completion sdk e)
  unfolding build_completion
  build_completion-Shape e = completion_for-Shape e.event_type e
