-- ===== src/Completion.antt =====
-- backend/internal/service/webhook.go, buildCompletion and what it calls, and webhook_errors.go:
-- which change of an order an event asks for.
pub mod Shape
pub mod Legality
pub mod Reading
use stripe_payment_integrati.Prelude.{
  ℕ, String, ◌==◌, Bool, true, false, Option, none, some, [], ◌∷◌, if◌then◌else◌, or_empty,
}
use stripe_payment_integrati.Prelude.Int.{ℤ, pos, leb_ℤ, eqb_ℤ}
use stripe_payment_integrati.Prelude.Text.{equal_fold}
use stripe_payment_integrati.Domain.{OrderStatus}
use stripe_payment_integrati.Db.{
  Order, Error, Result, ok, err, EventType, order_not_found, malformed_payload,
  missing_payment_intent, not_refundable, missing_amount, amount_mismatch, missing_currency,
  currency_mismatch,
}
use stripe_payment_integrati.Db.Webhooks.{WebhookCompletion}
use stripe_payment_integrati.Db.Orders.{get_order_by_session_id, get_order_by_payment_intent_id}
use stripe_payment_integrati.World.{Try, pure, bind, try_bind, read_clock}
use stripe_payment_integrati.World.Scan.{scan_order, row_of}
use stripe_payment_integrati.Stripe.{
  Event, SessionStatus, PaymentStatus, CheckoutSession, Charge, Sdk,
}

infixl 5 ◌>>=◌ ◌>>◌
abbrev ◌>>=◌ : {A B : Type 0} → Try A → (A → Try B) → Try B
m >>= f = try_bind m f

abbrev ◌>>◌ : {B : Type 0} → Try (Unit {0}) → Try B → Try B
m >> k = try_bind m (λ _. k)

-- a value that an earlier call returned
abbrev lift : {A : Type 0} → Result A → Try A
lift r = pure r

abbrev or_error : {A : Type 0} → Error → Option A → Result A
or_error e none = err e
or_error e (some a) = ok a

-- An empty completion for the event.
abbrev pub no_change : String → WebhookCompletion
no_change id = record {
  stripe_event_id = id;
  order_id = none;
  new_status = none;
  payment_intent_id = none;
  paid_at = none;
  allowed_from = [];
  refund_only = false;
}

abbrev is_complete : SessionStatus → Bool
is_complete SessionStatus.complete = true
is_complete _ = false

module _ (sdk : Sdk) where
  -- verifyCheckoutSessionAmount and verifyChargeAmount make the same four tests.
  unfoldable pub verify_amount : Order → ℤ → String → Result (Unit {0})
  verify_amount o amount currency =
      if leb_ℤ amount (pos 0)
      then err missing_amount
      else if eqb_ℤ o.total_amount_cents amount
      then if currency == ""
        then err missing_currency
        else if equal_fold sdk.case_fold currency o.currency
        then ok tt
        else err currency_mismatch
      else err amount_mismatch

  unfoldable pub verify_checkout_session_amount : Order → CheckoutSession → Result (Unit {0})
  unfolding verify_amount
  verify_checkout_session_amount o s = verify_amount o s.amount_total s.currency

  unfoldable pub verify_charge_amount : Order → Charge → Result (Unit {0})
  unfolding verify_amount
  verify_charge_amount o c = verify_amount o c.amount c.currency

  abbrev pub parse_session : Event → Result CheckoutSession
  parse_session e = or_error malformed_payload (sdk.parse_session e.raw)

  abbrev pub parse_charge : Event → Result Charge
  parse_charge e = or_error malformed_payload (sdk.parse_charge e.raw)

  -- the charge's payment intent, "" where it has none
  abbrev charge_payment_intent_id : Charge → String
  charge_payment_intent_id c = or_empty c.payment_intent

  -- nil for a session with no payment intent, or one with no id
  unfoldable pub payment_intent_id : CheckoutSession → Option String
  payment_intent_id s = if or_empty s.payment_intent == "" then none else s.payment_intent

  unfoldable pub resolve_webhook_order : String → Try Order
  resolve_webhook_order session_id = do
    found ← scan_order (get_order_by_session_id session_id)
    lift (or_error order_not_found (row_of found))

  -- the tests on the order's status, before and after the amounts are compared
  refund_for : OrderStatus → Result (Unit {0}) → Order → String → Result WebhookCompletion
  refund_for OrderStatus.refunded verified o id =
      ok (record (no_change id) { order_id = some o.id })
  refund_for OrderStatus.paid (ok _) o id =
      ok (record (no_change id) { order_id = some o.id; refund_only = true })
  refund_for OrderStatus.paid (err e) o id = err e
  refund_for _ verified o id = err not_refundable

  unfoldable pub refund_completion : Order → Charge → String → Result WebhookCompletion
  unfolding refund_for
  refund_completion o charge id = refund_for o.status (verify_charge_amount o charge) o id

  refunded_charge : Charge → String → Try WebhookCompletion
  refunded_charge charge id =
      if charge_payment_intent_id charge == "" then pure (err missing_payment_intent) else do
        found ← scan_order (get_order_by_payment_intent_id (charge_payment_intent_id charge))
        order ← lift (or_error order_not_found (row_of found))
        lift (refund_completion order charge id)

  unfoldable pub completion_charge_refunded : Event → Try WebhookCompletion
  unfolding refunded_charge
  completion_charge_refunded e = do
    charge ← lift (parse_charge e)
    if charge.refunded then refunded_charge charge e.id else pure (ok (no_change e.id))

  -- what a completed session asks for, by its payment status
  unfoldable pub session_completion : Order → CheckoutSession → String → ℕ → WebhookCompletion
  unfolding payment_intent_id
  session_completion o s id now = elim s.payment_status [
    | PaymentStatus.paid ↦ record (no_change id) {
      order_id = some o.id;
      new_status = some OrderStatus.paid;
      payment_intent_id = payment_intent_id s;
      paid_at = some now;
      allowed_from = OrderStatus.pending ∷ OrderStatus.processing ∷ [];
    }
    | PaymentStatus.unpaid ↦ record (no_change id) {
      order_id = some o.id;
      new_status = some OrderStatus.processing;
      payment_intent_id = payment_intent_id s;
      allowed_from = OrderStatus.pending ∷ [];
    }
    | _ ↦ record (no_change id) { order_id = some o.id }
  ]

  completed_session : CheckoutSession → String → Try WebhookCompletion
  completed_session s id = do
    order ← resolve_webhook_order s.id
    lift (verify_checkout_session_amount order s)
    bind read_clock λ now. pure (ok (session_completion order s id now))

  unfoldable pub completion_session_completed : Event → Try WebhookCompletion
  unfolding completed_session
  completion_session_completed e = do
    s ← lift (parse_session e)
    if is_complete s.status then completed_session s e.id else pure (ok (no_change e.id))

  unfoldable pub succeeded_completion : Order → CheckoutSession → String → ℕ → WebhookCompletion
  unfolding payment_intent_id
  succeeded_completion o s id now = record (no_change id) {
    order_id = some o.id;
    new_status = some OrderStatus.paid;
    payment_intent_id = payment_intent_id s;
    paid_at = some now;
    allowed_from = OrderStatus.pending ∷ OrderStatus.processing ∷ [];
  }

  unfoldable pub completion_async_succeeded : Event → Try WebhookCompletion
  completion_async_succeeded e = do
    s ← lift (parse_session e)
    order ← resolve_webhook_order s.id
    lift (verify_checkout_session_amount order s)
    bind read_clock λ now. pure (ok (succeeded_completion order s e.id now))

  abbrev pub failed_completion : Order → String → WebhookCompletion
  failed_completion o id = record (no_change id) {
    order_id = some o.id;
    new_status = some OrderStatus.failed;
    allowed_from = OrderStatus.pending ∷ OrderStatus.processing ∷ [];
  }

  unfoldable pub completion_async_failed : Event → Try WebhookCompletion
  completion_async_failed e = do
    s ← lift (parse_session e)
    order ← resolve_webhook_order s.id
    pure (ok (failed_completion order e.id))

  abbrev pub expired_completion : Order → String → WebhookCompletion
  expired_completion o id = record (no_change id) {
    order_id = some o.id;
    new_status = some OrderStatus.expired;
    allowed_from = OrderStatus.pending ∷ [];
  }

  unfoldable pub completion_session_expired : Event → Try WebhookCompletion
  completion_session_expired e = do
    s ← lift (parse_session e)
    order ← resolve_webhook_order s.id
    pure (ok (expired_completion order e.id))

  -- the `switch` on the event's type
  completion_for : EventType → Event → Try WebhookCompletion
  completion_for EventType.session_completed e = completion_session_completed e
  completion_for EventType.async_payment_succeeded e = completion_async_succeeded e
  completion_for EventType.async_payment_failed e = completion_async_failed e
  completion_for EventType.session_expired e = completion_session_expired e
  completion_for EventType.charge_refunded e = completion_charge_refunded e
  completion_for (EventType.other s) e = pure (ok (no_change e.id))

  unfoldable pub build_completion : Event → Try WebhookCompletion
  unfolding completion_for
  build_completion e = completion_for e.event_type e
