-- ===== src/Tests/Claims.antt =====
-- The theorems on shared events and on lapsed payments at concrete stores.
use stripe_payment_integrati.Webhook.Delivery.{Ready, ready_new}
use stripe_payment_integrati.Webhook.Lapse.{Lapse, LeavesLapse, session_lapsed, lapse_lem}
use stripe_payment_integrati.Stripe.{Event}
use stripe_payment_integrati.Domain.{WebhookStatus, OrderStatus}
use stripe_payment_integrati.Webhook.Exclusion.{claim-excludes}
use stripe_payment_integrati.Db.Webhooks.{claimable, claim_webhook_event}
use stripe_payment_integrati.Tests.{
  world_of, completed_event, test_sdk, Event, store_of, order_in, paid_session,
}
use stripe_payment_integrati.Webhook.{received_row, process, retry_later, handle_event}
use stripe_payment_integrati.Db.Table.{find_row, any_row}
use stripe_payment_integrati.World.{World, quietly}
use stripe_payment_integrati.Db.{WebhookEvent, no_rows, EventType}
use stripe_payment_integrati.Prelude.{◌≡◌, refl, [], ◌∷◌, arith, some}

abbrev failed_row : WebhookEvent
failed_row = record (received_row completed_event "row") {
  processing_status = WebhookStatus.failed;
}

abbrev shared_world : World
shared_world = world_of (record no_rows { events = failed_row ∷ [] }) []

abbrev busy : World
busy = record (quietly shared_world) {
  tables = (claim_webhook_event "evt_1" 40 shared_world.tables).1;
}

claim-excludes_example : process test_sdk completed_event busy ≡ (retry_later, busy)
unfolding find_row claimable
claim-excludes_example =
    claim-excludes test_sdk completed_event shared_world 40 failed_row refl (refl, tt) refl refl
      (omega arith)

abbrev expired_event : Event
expired_event = record { id = "evt_4"; event_type = EventType.session_expired; raw = "{}" }

abbrev late_world : World
late_world = world_of (store_of (order_in OrderStatus.paid (some "pi_1"))) []

late-Ready : Ready test_sdk expired_event late_world
unfolding find_row any_row
late-Ready = ready_new refl refl refl

late-Lapse :
    Lapse test_sdk expired_event late_world paid_session
      (order_in OrderStatus.paid (some "pi_1"))
      OrderStatus.expired
      (OrderStatus.pending ∷ [])
unfolding find_row
late-Lapse = record { reports = session_lapsed refl; parsed = refl; for_order = refl }

-- The session of an order that is paid is reported as expired.
lapse_lem_example :
    LeavesLapse expired_event paid_session
      (order_in OrderStatus.paid (some "pi_1"))
      100
      OrderStatus.expired
      OrderStatus.paid
      (handle_event test_sdk expired_event (quietly late_world))
unfolding find_row
lapse_lem_example =
    lapse_lem test_sdk expired_event late_world paid_session
      (order_in OrderStatus.paid (some "pi_1")) late-Ready (refl, tt) late-Lapse
