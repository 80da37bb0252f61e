-- ===== src/Webhook/Payment.antt =====
-- What the report of a payment does to its order, whatever status the order is in.
use stripe_payment_integrati.World.Scan.{scan_order, with_items}
use stripe_payment_integrati.Db.Orders.{list_order_items}
use stripe_payment_integrati.Db.EffectLaws.{effect-applies, effect-skips}
use stripe_payment_integrati.Db.Webhooks.{WebhookCompletion, may_transition}
use stripe_payment_integrati.Webhook.Delivery.{Ready}
use stripe_payment_integrati.Domain.{OrderStatus, WebhookStatus, effect_satisfied}
use stripe_payment_integrati.Webhook.Answers.{
  Builds, EventIs, Verdict, delivery-Verdict, done, effect_at, no_effect_on_order,
}
use stripe_payment_integrati.Completion.{
  verify_amount, build_completion, completion_session_completed, completion_async_succeeded,
  session_completion, succeeded_completion, resolve_webhook_order, verify_checkout_session_amount,
  payment_intent_id,
}
use stripe_payment_integrati.Db.Orders.{has_session, get_order_by_session_id}
use stripe_payment_integrati.Db.Table.{find_row, Keyed}
use stripe_payment_integrati.Webhook.{
  is_handled, WebhookOutcome, processing_failed, acknowledged, handle_event,
}
use stripe_payment_integrati.World.{call, World, quietly}
use stripe_payment_integrati.Stripe.{Event, Sdk, CheckoutSession, SessionStatus, PaymentStatus}
use stripe_payment_integrati.Prelude.{
  ◌≡◌, true, some, Option, String, List, ℕ, ◌∷◌, coalesce, [], refl, false, ap, if◌then◌else◌,
}
use stripe_payment_integrati.Db.{ok, EventType, Order, err, Result, no_effect}

-- The events that report that a checkout session was paid.
pub data ReportsPayment (e : Event) (s : CheckoutSession) : Type 0 where
  completed :
      e.event_type ≡ EventType.session_completed
      → s.status ≡ SessionStatus.complete
      → s.payment_status ≡ PaymentStatus.paid
      → ReportsPayment e s
  succeeded : e.event_type ≡ EventType.async_payment_succeeded → ReportsPayment e s

-- A verified report of a payment of the order `o`.
pub record Payment (sdk : Sdk) (e : Event) (w : World) (s : CheckoutSession) (o : Order)
    : Type 0 where
  pub reports : ReportsPayment e s
  pub parsed : sdk.parse_session e.raw ≡ some s
  pub for_order : find_row (has_session s.id) w.tables.orders ≡ some o
  pub amounts : verify_amount sdk o s.amount_total s.currency ≡ ok tt

pub ReportsPayment-is_handled :
    {e : Event} {s : CheckoutSession} → ReportsPayment e s → is_handled e.event_type ≡ true
ReportsPayment-is_handled (completed t _ _) = rw t
ReportsPayment-is_handled (succeeded t) = rw t

module _ (sdk : Sdk) (e : Event) (w : World) (s : CheckoutSession) (o : Order) where
  module _ (parsed : sdk.parse_session e.raw ≡ some s)
      (for_order : find_row (has_session s.id) w.tables.orders ≡ some o)
      (amounts : verify_amount sdk o s.amount_total s.currency ≡ ok tt) where
    completed-Builds :
        e.event_type ≡ EventType.session_completed
        → s.status ≡ SessionStatus.complete
        → s.payment_status ≡ PaymentStatus.paid
        → Builds sdk e w (ok (succeeded_completion sdk o s e.id w.clock))
    unfolding build_completion completion_session_completed session_completion succeeded_completion
        resolve_webhook_order get_order_by_session_id scan_order with_items list_order_items
        verify_checkout_session_amount call
    completed-Builds type complete paid v orders clock =
        rw (type, parsed, complete, orders, for_order, amounts, paid, clock)

    succeeded-Builds :
        e.event_type ≡ EventType.async_payment_succeeded
        → Builds sdk e w (ok (succeeded_completion sdk o s e.id w.clock))
    unfolding build_completion completion_async_succeeded succeeded_completion resolve_webhook_order
        get_order_by_session_id scan_order with_items list_order_items
        verify_checkout_session_amount call
    succeeded-Builds type v orders clock = rw (type, parsed, orders, for_order, amounts, clock)

Payment-Builds :
    (sdk : Sdk) (e : Event) (w : World) (s : CheckoutSession) (o : Order)
    → Payment sdk e w s o
    → Builds sdk e w (ok (succeeded_completion sdk o s e.id w.clock))
Payment-Builds sdk e w s o p = by_kind p.reports
  where
    by_kind : ReportsPayment e s → Builds sdk e w (ok (succeeded_completion sdk o s e.id w.clock))
    by_kind (completed type complete paid) =
        completed-Builds sdk e w s o p.parsed p.for_order p.amounts type complete paid
    by_kind (succeeded type) = succeeded-Builds sdk e w s o p.parsed p.for_order p.amounts type

-- The answer, the order and the event's status that a payment leads to, by the order's status.
abbrev pub payment_answer : OrderStatus → WebhookOutcome
payment_answer OrderStatus.failed = processing_failed
payment_answer OrderStatus.expired = processing_failed
payment_answer OrderStatus.canceled = processing_failed
payment_answer _ = acknowledged

abbrev pub payment_event : OrderStatus → WebhookStatus
payment_event OrderStatus.failed = WebhookStatus.processing
payment_event OrderStatus.expired = WebhookStatus.processing
payment_event OrderStatus.canceled = WebhookStatus.processing
payment_event _ = WebhookStatus.processed

abbrev pub paid_now : Option String → ℕ → Order → Order
paid_now intent t o = record o {
  status = OrderStatus.paid;
  payment_intent_id = coalesce intent o.payment_intent_id;
  paid_at = some t;
  updated_at = t;
}

abbrev pub payment_order : OrderStatus → Option String → ℕ → Order → Order
payment_order OrderStatus.pending intent t o = paid_now intent t o
payment_order OrderStatus.processing intent t o = paid_now intent t o
payment_order _ intent t o = o

-- What a delivery leaves of one order.
pub record LeavesOrder (e : Event) (s : CheckoutSession) (x : WebhookOutcome) (o : Order)
    (st : WebhookStatus) (r : WebhookOutcome × World) : Type 0 where
  pub answer : r.0 ≡ x
  pub order_left : find_row (has_session s.id) r.1.tables.orders ≡ some o
  pub event_left : EventIs e.id st r.1.tables

module _ (sdk : Sdk) (e : Event) (w : World) (s : CheckoutSession) (o : Order)
    (ready : Ready sdk e w) (p : Payment sdk e w s o) where
  abbrev asked : WebhookCompletion
  asked = succeeded_completion sdk o s e.id w.clock

  leaves :
      {x : WebhookOutcome} {orders : List Order} {st : WebhookStatus} (o' : Order)
      → Verdict e w (ok asked) x orders st
      → find_row (has_session s.id) orders ≡ some o'
      → LeavesOrder e s x o' st (handle_event sdk e (quietly w))
  leaves o' verdict found =
      let l =
        delivery-Verdict sdk e w (ReportsPayment-is_handled p.reports) ready
          (Payment-Builds sdk e w s o p) verdict in
      record { answer = l.answer; order_left = rw l.orders_left found; event_left = l.event_left }

  pays :
      may_transition (OrderStatus.pending ∷ OrderStatus.processing ∷ []) o ≡ true
      → LeavesOrder e s acknowledged
          (paid_now (payment_intent_id sdk s) w.clock o)
          WebhookStatus.processed
          (handle_event sdk e (quietly w))
  unfolding succeeded_completion
  pays h =
      let (fine, found) =
        effect-applies asked w.clock w.tables.orders (has_session s.id) o OrderStatus.paid
          p.for_order h (λ q. refl) in
      leaves _ (done asked refl fine) found

  module _ (keyed : Keyed (λ q. q.id) w.tables.orders)
      (stuck : may_transition (OrderStatus.pending ∷ OrderStatus.processing ∷ []) o ≡ false) where
    skipped : effect_at asked w ≡ (
      if effect_satisfied o.status OrderStatus.paid false then ok tt else err no_effect,
      w.tables.orders,
    )
    unfolding succeeded_completion
    skipped =
        effect-skips asked w.clock w.tables.orders (has_session s.id) o OrderStatus.paid p.for_order
          keyed stuck

    already :
        effect_satisfied o.status OrderStatus.paid false ≡ true
        → LeavesOrder e s acknowledged o WebhookStatus.processed (handle_event sdk e (quietly w))
    unfolding succeeded_completion
    already h =
        let kept : effect_at asked w ≡ (ok tt, w.tables.orders) = rw (skipped, h) in
        leaves o (done asked refl (ap (λ (r : Result (Unit {0}) × List Order). r.0) kept))
          (rw (ap (λ (r : Result (Unit {0}) × List Order). r.1) kept) p.for_order)

    refuses :
        effect_satisfied o.status OrderStatus.paid false ≡ false
        → LeavesOrder e s processing_failed o WebhookStatus.processing
            (handle_event sdk e (quietly w))
    unfolding succeeded_completion
    refuses h =
        let kept : effect_at asked w ≡ (err no_effect, w.tables.orders) = rw (skipped, h) in
        leaves o
          (no_effect_on_order asked no_effect
            (ap (λ (r : Result (Unit {0}) × List Order). r.0) kept))
          p.for_order

  by_status :
      Keyed (λ q. q.id) w.tables.orders
      → (st : OrderStatus) → o.status ≡ st
      → LeavesOrder e s
          (payment_answer st)
          (payment_order st (payment_intent_id sdk s) w.clock o)
          (payment_event st)
          (handle_event sdk e (quietly w))
  unfolding effect_satisfied
  by_status keyed OrderStatus.pending h = pays (rw h)
  by_status keyed OrderStatus.processing h = pays (rw h)
  by_status keyed OrderStatus.paid h = already keyed (rw h) (rw h)
  by_status keyed OrderStatus.refunded h = already keyed (rw h) (rw h)
  by_status keyed OrderStatus.failed h = refuses keyed (rw h) (rw h)
  by_status keyed OrderStatus.expired h = refuses keyed (rw h) (rw h)
  by_status keyed OrderStatus.canceled h = refuses keyed (rw h) (rw h)

  -- An undisturbed delivery that reports a payment of the right amount and currency, for an order in
  -- a store whose order ids are unique, by an event that is new, failed or stale. A pending or
  -- processing order becomes paid, now, with the session's payment intent, and the event is
  -- processed; a paid or refunded order stays as it is and the event is processed; for a failed,
  -- expired or canceled order the order stays as it is, Stripe is told that processing failed, and
  -- the event stays in processing.
  pub payment_lem :
      Keyed (λ q. q.id) w.tables.orders
      → LeavesOrder e s
          (payment_answer o.status)
          (payment_order o.status (payment_intent_id sdk s) w.clock o)
          (payment_event o.status)
          (handle_event sdk e (quietly w))
  payment_lem keyed = by_status keyed o.status refl
