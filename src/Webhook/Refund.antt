-- ===== src/Webhook/Refund.antt =====
-- What the report of a full refund does to its order.
use stripe_payment_integrati.World.Scan.{scan_order, with_items}
use stripe_payment_integrati.Db.Orders.{list_order_items}
use stripe_payment_integrati.Webhook.Delivery.{Ready}
use stripe_payment_integrati.Db.Webhooks.{
  WebhookCompletion, order_effect, is_order, ensure_order_webhook_effect, refunded_at, may_refund,
}
use stripe_payment_integrati.Webhook.Answers.{
  EventIs, Builds, effect_at, Verdict, done, delivery-Verdict, no_completion,
}
use stripe_payment_integrati.Db.Orders.{has_payment_intent, get_order_by_payment_intent_id}
use stripe_payment_integrati.Completion.{
  build_completion, completion_charge_refunded, verify_amount, refund_completion,
  verify_charge_amount, no_change,
}
use stripe_payment_integrati.Db.Table.{find_row, affected, affected-pos, find_row-update_rows}
use stripe_payment_integrati.Webhook.{WebhookOutcome, acknowledged, processing_failed, handle_event}
use stripe_payment_integrati.World.{World, call, quietly}
use stripe_payment_integrati.Domain.{OrderStatus, WebhookStatus}
use stripe_payment_integrati.Stripe.{Sdk, Event, Charge}
use stripe_payment_integrati.Prelude.{
  ◌≡◌, refl, true, false, some, ap, ℕ, String, ◌==◌, List, Bool, ◌&&◌, subst, eq_refl, ltb, arith,
}
use stripe_payment_integrati.Db.{ok, err, Order, EventType, Result, not_refundable}

-- A report that a charge of the order `o` was refunded in full.
pub record RefundReport (sdk : Sdk) (e : Event) (w : World) (c : Charge) (k : String) (o : Order)
    : Type 0 where
  pub kind : e.event_type ≡ EventType.charge_refunded
  pub parsed : sdk.parse_charge e.raw ≡ some c
  pub in_full : c.refunded ≡ true
  pub intent : c.payment_intent ≡ some k
  pub intent_given : (k == "") ≡ false
  pub for_order : find_row (has_payment_intent k) w.tables.orders ≡ some o
  pub amounts : verify_amount sdk o c.amount c.currency ≡ ok tt

abbrev pub refund_answer : OrderStatus → WebhookOutcome
refund_answer OrderStatus.paid = acknowledged
refund_answer OrderStatus.refunded = acknowledged
refund_answer _ = processing_failed

abbrev pub refund_event : OrderStatus → WebhookStatus
refund_event OrderStatus.paid = WebhookStatus.processed
refund_event OrderStatus.refunded = WebhookStatus.processed
refund_event _ = WebhookStatus.failed

abbrev pub refund_order : OrderStatus → ℕ → Order → Order
refund_order OrderStatus.paid t o = record o { status = OrderStatus.refunded; updated_at = t }
refund_order _ t o = o

pub record LeavesRefund (e : Event) (k : String) (x : WebhookOutcome) (o : Order)
    (st : WebhookStatus) (r : WebhookOutcome × World) : Type 0 where
  pub answer : r.0 ≡ x
  pub order_left : find_row (has_payment_intent k) r.1.tables.orders ≡ some o
  pub event_left : EventIs e.id st r.1.tables

module _ (sdk : Sdk) (e : Event) (w : World) (c : Charge) (k : String) (o : Order)
    (p : RefundReport sdk e w c k o) where
  refund-Builds : Builds sdk e w (refund_completion sdk o c e.id)
  unfolding build_completion completion_charge_refunded get_order_by_payment_intent_id scan_order
      with_items list_order_items call
  refund-Builds v orders clock =
      rw (p.kind, p.parsed, p.in_full, p.intent, p.intent_given, orders, p.for_order)

  leaves :
      {x : WebhookOutcome} {orders : List Order} {st : WebhookStatus} (r : Result WebhookCompletion)
      (o' : Order)
      → Ready sdk e w
      → refund_completion sdk o c e.id ≡ r
      → Verdict e w r x orders st
      → find_row (has_payment_intent k) orders ≡ some o'
      → LeavesRefund e k x o' st (handle_event sdk e (quietly w))
  leaves r o' ready same verdict found =
      let builds : Builds sdk e w r = subst (λ q. Builds sdk e w q) same refund-Builds in
      let l = delivery-Verdict sdk e w (rw p.kind) ready builds verdict in
      record { answer = l.answer; order_left = rw l.orders_left found; event_left = l.event_left }

  abbrev refunding : WebhookCompletion
  refunding = record (no_change e.id) { order_id = some o.id; refund_only = true }

  takes : Order → Bool
  takes q = is_order o.id q && may_refund q

  refunds :
      o.status ≡ OrderStatus.paid
      → ((effect_at refunding w).0 ≡ ok tt)
        × (find_row (has_payment_intent k) (effect_at refunding w).1 ≡ some (refunded_at w.clock o))
  unfolding order_effect ensure_order_webhook_effect takes
  refunds h =
      let own : takes o ≡ true = rw (eq_refl o.id, h) refl in
      let hit : ltb 0 (affected takes w.tables.orders) ≡ true =
        ground
          (arith, affected-pos (has_payment_intent k) takes w.tables.orders o p.for_order own) in
      (
        rw hit,
        rw
            (find_row-update_rows (has_payment_intent k) takes (refunded_at w.clock) w.tables.orders
              (λ q. refl))
            (rw p.for_order (rw own)),
      )

  untouched :
      effect_at (record (no_change e.id) { order_id = some o.id }) w ≡ (ok tt, w.tables.orders)
  unfolding order_effect
  untouched = refl

  by_status :
      Ready sdk e w
      → (st : OrderStatus) → o.status ≡ st
      → LeavesRefund e k
          (refund_answer st)
          (refund_order st w.clock o)
          (refund_event st)
          (handle_event sdk e (quietly w))
  unfolding refund_completion verify_charge_amount
  by_status ready OrderStatus.paid h =
      let (fine, found) = refunds h in
      leaves (ok refunding) (refunded_at w.clock o) ready (rw (h, p.amounts))
        (done refunding refl fine) found
  by_status ready OrderStatus.refunded h =
      leaves (ok (record (no_change e.id) { order_id = some o.id })) o ready (rw h)
        (done (record (no_change e.id) { order_id = some o.id }) refl
          (ap (λ (r : Result (Unit {0}) × List Order). r.0) untouched))
        (rw (ap (λ (r : Result (Unit {0}) × List Order). r.1) untouched) p.for_order)
  by_status ready OrderStatus.pending h =
      leaves (err not_refundable) o ready (rw h) (no_completion not_refundable) p.for_order
  by_status ready OrderStatus.processing h =
      leaves (err not_refundable) o ready (rw h) (no_completion not_refundable) p.for_order
  by_status ready OrderStatus.failed h =
      leaves (err not_refundable) o ready (rw h) (no_completion not_refundable) p.for_order
  by_status ready OrderStatus.expired h =
      leaves (err not_refundable) o ready (rw h) (no_completion not_refundable) p.for_order
  by_status ready OrderStatus.canceled h =
      leaves (err not_refundable) o ready (rw h) (no_completion not_refundable) p.for_order

  -- An undisturbed delivery of a report that a charge was refunded in full, its amount and currency
  -- those of the order, by an event that is new, failed or stale. A paid order becomes refunded and
  -- the event is processed; a refunded order stays as it is and the event is processed; in any other
  -- status the order stays as it is, Stripe is told that processing failed, and the event is failed.
  pub refund_lem :
      Ready sdk e w
      → LeavesRefund e k
          (refund_answer o.status)
          (refund_order o.status w.clock o)
          (refund_event o.status)
          (handle_event sdk e (quietly w))
  refund_lem ready = by_status ready o.status refl
