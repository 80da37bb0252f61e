-- ===== src/Webhook/Lapse.antt =====
-- What the report of an expired session or a failed payment does to its order.
use stripe_payment_integrati.World.Scan.{scan_order, with_items}
use stripe_payment_integrati.Db.Orders.{list_order_items}
use stripe_payment_integrati.Db.EffectLaws.{effect-applies, effect-skips}
use stripe_payment_integrati.Webhook.Payment.{LeavesOrder}
use stripe_payment_integrati.Webhook.Answers.{
  Builds, effect_at, Verdict, delivery-Verdict, done, no_effect_on_order,
}
use stripe_payment_integrati.Db.Orders.{has_session, get_order_by_session_id}
use stripe_payment_integrati.Webhook.Delivery.{Ready}
use stripe_payment_integrati.Db.Webhooks.{WebhookCompletion, may_transition}
use stripe_payment_integrati.Db.Table.{find_row, Keyed}
use stripe_payment_integrati.Db.{Order, EventType, ok, err, no_effect, Result}
use stripe_payment_integrati.Webhook.{
  is_handled, WebhookCompletion, call, WebhookOutcome, acknowledged, processing_failed,
  handle_event,
}
use stripe_payment_integrati.World.{World, call, quietly}
use stripe_payment_integrati.Completion.{
  build_completion, completion_session_expired, completion_async_failed, resolve_webhook_order,
  no_change,
}
use stripe_payment_integrati.Domain.{OrderStatus, WebhookStatus, effect_satisfied}
use stripe_payment_integrati.Stripe.{Event, Sdk, CheckoutSession}
use stripe_payment_integrati.Prelude.{
  ◌≡◌, true, false, some, List, ℕ, ◌∷◌, [], refl, ap, if◌then◌else◌, String, Bool, ◌||◌,
}

-- The events that report that no payment will come, the status that they ask for, and the statuses that
-- they ask it from.
pub data ReportsLapse (e : Event) : OrderStatus → List OrderStatus → Type 0 where
  session_lapsed :
      e.event_type ≡ EventType.session_expired
      → ReportsLapse e OrderStatus.expired (OrderStatus.pending ∷ [])
  payment_failed :
      e.event_type ≡ EventType.async_payment_failed
      → ReportsLapse e OrderStatus.failed (OrderStatus.pending ∷ OrderStatus.processing ∷ [])

-- A report on the order `o`.
pub record Lapse (sdk : Sdk) (e : Event) (w : World) (s : CheckoutSession) (o : Order)
    (t : OrderStatus) (allowed : List OrderStatus) : Type 0 where
  pub reports : ReportsLapse e t allowed
  pub parsed : sdk.parse_session e.raw ≡ some s
  pub for_order : find_row (has_session s.id) w.tables.orders ≡ some o

ReportsLapse-is_handled :
    {e : Event} {t : OrderStatus} {allowed : List OrderStatus}
    → ReportsLapse e t allowed
    → is_handled e.event_type ≡ true
ReportsLapse-is_handled (session_lapsed type) = rw type
ReportsLapse-is_handled (payment_failed type) = rw type

abbrev lapsed : OrderStatus → List OrderStatus → Order → String → WebhookCompletion
lapsed t allowed o id = record (no_change id) {
  order_id = some o.id;
  new_status = some t;
  allowed_from = allowed;
}

Lapse-Builds :
    (sdk : Sdk) (e : Event) (w : World) (s : CheckoutSession) (o : Order) {t : OrderStatus}
    {allowed : List OrderStatus}
    → sdk.parse_session e.raw ≡ some s
    → find_row (has_session s.id) w.tables.orders ≡ some o
    → ReportsLapse e t allowed
    → Builds sdk e w (ok (lapsed t allowed o e.id))
unfolding build_completion completion_session_expired completion_async_failed resolve_webhook_order
    get_order_by_session_id scan_order with_items list_order_items call
Lapse-Builds sdk e w s o parsed for_order (session_lapsed type) v orders clock =
    rw (type, parsed, orders, for_order)
Lapse-Builds sdk e w s o parsed for_order (payment_failed type) v orders clock =
    rw (type, parsed, orders, for_order)

-- The order as the update leaves it.
abbrev pub lapsed_now : OrderStatus → ℕ → Order → Order
lapsed_now t now o = record o { status = t; updated_at = now }

module _ (sdk : Sdk) (e : Event) (w : World) (s : CheckoutSession) (o : Order) (t : OrderStatus)
    (allowed : List OrderStatus) (ready : Ready sdk e w)
    (keyed : Keyed (λ (q : Order). q.id) w.tables.orders) (p : Lapse sdk e w s o t allowed) where
  abbrev asked : WebhookCompletion
  asked = lapsed t allowed o e.id

  leaves :
      {x : WebhookOutcome} {orders : List Order} {st : WebhookStatus} (o' : Order)
      → Verdict e w (ok asked) x orders st
      → find_row (has_session s.id) orders ≡ some o'
      → LeavesOrder e s x o' st (handle_event sdk e (quietly w))
  leaves o' verdict found =
      let l =
        delivery-Verdict sdk e w (ReportsLapse-is_handled p.reports) ready
          (Lapse-Builds sdk e w s o p.parsed p.for_order p.reports) verdict in
      record { answer = l.answer; order_left = rw l.orders_left found; event_left = l.event_left }

  lapses :
      may_transition allowed o ≡ true
      → LeavesOrder e s acknowledged
          (lapsed_now t w.clock o)
          WebhookStatus.processed
          (handle_event sdk e (quietly w))
  lapses h =
      let (fine, found) =
        effect-applies asked w.clock w.tables.orders (has_session s.id) o t p.for_order h
          (λ q. refl) in
      leaves _ (done asked refl fine) found

  module _ (stuck : may_transition allowed o ≡ false) where
    skipped :
        effect_at asked w
        ≡ (if effect_satisfied o.status t false then ok tt else err no_effect, w.tables.orders)
    skipped =
        effect-skips asked w.clock w.tables.orders (has_session s.id) o t p.for_order keyed stuck

    already :
        effect_satisfied o.status t false ≡ true
        → LeavesOrder e s acknowledged o WebhookStatus.processed (handle_event sdk e (quietly w))
    already h =
        let kept : effect_at asked w ≡ (ok tt, w.tables.orders) = rw (skipped, h) in
        leaves o (done asked refl (ap (λ (r : Result (Unit {0}) × List Order). r.0) kept))
          (rw (ap (λ (r : Result (Unit {0}) × List Order). r.1) kept) p.for_order)

    refuses :
        effect_satisfied o.status t false ≡ false
        → LeavesOrder e s processing_failed o WebhookStatus.processing
            (handle_event sdk e (quietly w))
    refuses h =
        let kept : effect_at asked w ≡ (err no_effect, w.tables.orders) = rw (skipped, h) in
        leaves o
          (no_effect_on_order asked no_effect
            (ap (λ (r : Result (Unit {0}) × List Order). r.0) kept))
          p.for_order

-- the statuses from which the order moves, by the status asked for
abbrev pub moves : OrderStatus → OrderStatus → Bool
moves OrderStatus.expired OrderStatus.pending = true
moves OrderStatus.failed OrderStatus.pending = true
moves OrderStatus.failed OrderStatus.processing = true
moves _ _ = false

-- the statuses that need no move: the one asked for, and those of money that has arrived
abbrev pub needs_none : OrderStatus → OrderStatus → Bool
needs_none OrderStatus.expired OrderStatus.expired = true
needs_none OrderStatus.failed OrderStatus.failed = true
needs_none _ OrderStatus.paid = true
needs_none _ OrderStatus.refunded = true
needs_none _ _ = false

abbrev pub LeavesLapse :
    Event
    → CheckoutSession
    → Order
    → ℕ
    → OrderStatus
    → OrderStatus
    → WebhookOutcome × World
    → Type 0
LeavesLapse e s o now t st r =
    LeavesOrder e s (if moves t st || needs_none t st then acknowledged else processing_failed)
      (if moves t st then lapsed_now t now o else o)
      (if moves t st || needs_none t st then WebhookStatus.processed else WebhookStatus.processing)
      r

module _ (sdk : Sdk) (e : Event) (w : World) (s : CheckoutSession) (o : Order)
    (ready : Ready sdk e w) (keyed : Keyed (λ (q : Order). q.id) w.tables.orders) where
  by_status :
      {t : OrderStatus} {allowed : List OrderStatus}
      → ReportsLapse e t allowed
      → (p : Lapse sdk e w s o t allowed) → (st : OrderStatus) → o.status ≡ st
      → LeavesLapse e s o w.clock t st (handle_event sdk e (quietly w))
  unfolding effect_satisfied
  by_status (session_lapsed type) p OrderStatus.pending h =
      lapses sdk e w s o _ _ ready keyed p (rw h)
  by_status (session_lapsed type) p OrderStatus.processing h =
      refuses sdk e w s o _ _ ready keyed p (rw h) (rw h)
  by_status (session_lapsed type) p OrderStatus.failed h =
      refuses sdk e w s o _ _ ready keyed p (rw h) (rw h)
  by_status (session_lapsed type) p OrderStatus.canceled h =
      refuses sdk e w s o _ _ ready keyed p (rw h) (rw h)
  by_status (session_lapsed type) p OrderStatus.expired h =
      already sdk e w s o _ _ ready keyed p (rw h) (rw h)
  by_status (session_lapsed type) p OrderStatus.paid h =
      already sdk e w s o _ _ ready keyed p (rw h) (rw h)
  by_status (session_lapsed type) p OrderStatus.refunded h =
      already sdk e w s o _ _ ready keyed p (rw h) (rw h)
  by_status (payment_failed type) p OrderStatus.pending h =
      lapses sdk e w s o _ _ ready keyed p (rw h)
  by_status (payment_failed type) p OrderStatus.processing h =
      lapses sdk e w s o _ _ ready keyed p (rw h)
  by_status (payment_failed type) p OrderStatus.expired h =
      refuses sdk e w s o _ _ ready keyed p (rw h) (rw h)
  by_status (payment_failed type) p OrderStatus.canceled h =
      refuses sdk e w s o _ _ ready keyed p (rw h) (rw h)
  by_status (payment_failed type) p OrderStatus.failed h =
      already sdk e w s o _ _ ready keyed p (rw h) (rw h)
  by_status (payment_failed type) p OrderStatus.paid h =
      already sdk e w s o _ _ ready keyed p (rw h) (rw h)
  by_status (payment_failed type) p OrderStatus.refunded h =
      already sdk e w s o _ _ ready keyed p (rw h) (rw h)

  -- An undisturbed delivery that reports an expired session or a failed payment, by an event that is new,
  -- failed or stale, in a store whose order ids are unique. A pending order becomes expired, or failed;
  -- a processing order becomes failed, but does not expire; an order that is there already, or paid,
  -- or refunded stays as it is, and the event is processed; in any other case the order stays as it is,
  -- Stripe is told that processing failed, and the event stays in processing.
  pub lapse_lem :
      {t : OrderStatus} {allowed : List OrderStatus}
      → (p : Lapse sdk e w s o t allowed)
      → LeavesLapse e s o w.clock t o.status (handle_event sdk e (quietly w))
  lapse_lem p = by_status p.reports p o.status refl
