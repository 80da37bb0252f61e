-- ===== src/Tests/Webhooks.antt =====
-- The theorems on webhooks at concrete deliveries.
use stripe_payment_integrati.Completion.Legality.{build_completion-Legal}
use stripe_payment_integrati.Db.Orders.{cancel_stale_pending_orders}
use stripe_payment_integrati.Webhook.Redelivery.{
  redelivery_at_once, unhandled_lem, claim_fails, on_processed, claim_failure_strands,
}
use stripe_payment_integrati.Webhook.Payment.{
  Payment, LeavesOrder, completed, paid_now, payment_lem,
}
use stripe_payment_integrati.Webhook.Interleaving.{handle-Progress}
use stripe_payment_integrati.Domain.Lifecycle.{Satisfied, effect_satisfied_iff, target_paid}
use stripe_payment_integrati.Webhook.Misreport.{
  Mismatch, misreport_lem, differs, other_currency, mismatch-Builds,
}
use stripe_payment_integrati.Prelude.Text.{equal_fold}
use stripe_payment_integrati.Webhook.Delivery.{Ready, ready_new}
use stripe_payment_integrati.Db.Guarantees.{Legal}
use stripe_payment_integrati.Db.{WebhookEvent, EventType, Error, Order, err}
use stripe_payment_integrati.Completion.{verify_amount, payment_intent_id, build_completion}
use stripe_payment_integrati.Db.OrderGuarantees.{cancel_stale-Obeys}
use stripe_payment_integrati.Tests.{
  world_of, completed_event, customer_event, store_of, test_sdk, order_in, paid_session,
  refunded_charge, charge_event,
}
use stripe_payment_integrati.Webhook.{
  WebhookOutcome, handle, handle_event, processing_failed, acknowledged, retry_later,
}
use stripe_payment_integrati.Webhook.Refund.{LeavesRefund, RefundReport, refund_lem}
use stripe_payment_integrati.Webhook.Answers.{Leaves, Builds, delivery-Verdict, no_completion}
use stripe_payment_integrati.Db.Table.{find_row, any_row}
use stripe_payment_integrati.World.Yields.{Yields, OnOk}
use stripe_payment_integrati.Db.Progress.{Progress, Progress-preorder}
use stripe_payment_integrati.World.Keeps.{Fair}
use stripe_payment_integrati.World.{World, Fault}
use stripe_payment_integrati.Domain.{effect_satisfied, WebhookStatus, OrderStatus}
use stripe_payment_integrati.Prelude.{◌≡◌, refl, true, false, none, some, ◌∷◌, [], ◌↔◌, ℕ}

effect_satisfied_iff_example :
    (effect_satisfied OrderStatus.refunded OrderStatus.paid false ≡ true)
    ↔ Satisfied OrderStatus.refunded OrderStatus.paid false
effect_satisfied_iff_example =
    effect_satisfied_iff OrderStatus.refunded OrderStatus.paid false target_paid

-- The stale order job runs between two statements of the delivery.
abbrev busy_world : World
busy_world = world_of (store_of (order_in OrderStatus.pending none)) (
    record {
      elapsed = 1;
      others = λ t db. (cancel_stale_pending_orders 900000000000 t db).1;
      fault = Fault.up;
    }
    ∷ record { elapsed = 1; others = λ t db. db; fault = Fault.reply_lost }
    ∷ [])

busy_world-Fair : Fair Progress busy_world.schedule
busy_world-Fair = (cancel_stale-Obeys 900000000000, ((λ t db. Progress-preorder.refl_at db), tt))

handle-Progress_example :
    Progress busy_world.tables (handle test_sdk "{}" "good" busy_world).1.tables
handle-Progress_example = handle-Progress test_sdk "{}" "good" busy_world busy_world-Fair

build_completion-Legal_example : Yields (OnOk Legal) (build_completion test_sdk completed_event)
build_completion-Legal_example = build_completion-Legal test_sdk completed_event

abbrev pub pending_world : World
pending_world = world_of (store_of (order_in OrderStatus.pending none)) []

pub pending-Ready : Ready test_sdk completed_event pending_world
unfolding find_row any_row
pending-Ready = ready_new refl refl refl

pub pending-Payment :
    Payment test_sdk completed_event pending_world paid_session (order_in OrderStatus.pending none)
unfolding find_row verify_amount equal_fold
pending-Payment = record {
  reports = completed refl refl refl;
  parsed = refl;
  for_order = refl;
  amounts = refl;
}

payment_lem_example :
    LeavesOrder completed_event paid_session acknowledged
      (paid_now (some "pi_1") 100 (order_in OrderStatus.pending none))
      WebhookStatus.processed
      (handle_event test_sdk completed_event pending_world)
unfolding payment_intent_id find_row
payment_lem_example =
    payment_lem test_sdk completed_event pending_world paid_session
      (order_in OrderStatus.pending none) pending-Ready pending-Payment (refl, tt)

abbrev euro_order : Order
euro_order = record (order_in OrderStatus.pending none) { currency = "eur" }

abbrev euro_world : World
euro_world = world_of (store_of euro_order) []

-- 42 dollars were paid for 42 euros.
euro_mismatch : Mismatch test_sdk completed_event euro_world paid_session refl
unfolding find_row equal_fold
euro_mismatch = differs euro_order refl (other_currency refl)

euro-Ready : Ready test_sdk completed_event euro_world
unfolding find_row any_row
euro-Ready = ready_new refl refl refl

misreport_lem_example :
    Leaves completed_event processing_failed euro_world.tables.orders WebhookStatus.failed
      (handle_event test_sdk completed_event euro_world)
misreport_lem_example =
    misreport_lem test_sdk completed_event euro_world paid_session refl euro_mismatch
      (completed refl refl refl) euro-Ready

abbrev paid_world : World
paid_world = world_of (store_of (order_in OrderStatus.paid (some "pi_1"))) []

paid_refund :
    RefundReport test_sdk charge_event paid_world refunded_charge "pi_1"
      (order_in OrderStatus.paid (some "pi_1"))
unfolding find_row verify_amount equal_fold
paid_refund = record {
  kind = refl;
  parsed = refl;
  in_full = refl;
  intent = refl;
  intent_given = refl;
  for_order = refl;
  amounts = refl;
}

refund-Ready : Ready test_sdk charge_event paid_world
unfolding find_row any_row
refund-Ready = ready_new refl refl refl

refund_lem_example :
    LeavesRefund charge_event "pi_1" acknowledged
      (record (order_in OrderStatus.paid (some "pi_1")) {
        status = OrderStatus.refunded;
        updated_at = 100;
      })
      WebhookStatus.processed
      (handle_event test_sdk charge_event paid_world)
refund_lem_example =
    refund_lem test_sdk charge_event paid_world refunded_charge "pi_1"
      (order_in OrderStatus.paid (some "pi_1")) paid_refund refund-Ready

abbrev event_row : WebhookStatus → WebhookEvent
event_row s = record {
  id = "row_1";
  stripe_event_id = "evt_1";
  event_type = EventType.session_completed;
  order_id = none;
  processing_status = s;
  processed_at = none;
  processing_started_at = none;
  created_at = 50;
}

abbrev done_world : World
done_world =
    world_of
      (record (store_of (order_in OrderStatus.paid none)) {
        events = event_row WebhookStatus.processed ∷ [];
      })
      []

redelivery_at_once_example :
    handle_event test_sdk completed_event done_world ≡ (acknowledged, done_world)
unfolding find_row
redelivery_at_once_example =
    redelivery_at_once test_sdk completed_event done_world (event_row WebhookStatus.processed)
      acknowledged refl on_processed

unhandled-Ready : Ready test_sdk customer_event pending_world
unfolding find_row any_row
unhandled-Ready = ready_new refl refl refl

unhandled_lem_example :
    Leaves customer_event acknowledged pending_world.tables.orders WebhookStatus.ignored
      (handle_event test_sdk customer_event pending_world)
unhandled_lem_example = unhandled_lem test_sdk customer_event pending_world refl unhandled-Ready

abbrev stranded : WebhookOutcome × World
stranded = handle_event test_sdk completed_event (claim_fails pending_world 1 2 3)

claim_failure_strands_example :
    (stranded.0 ≡ retry_later)
    × (stranded.1.tables.orders ≡ pending_world.tables.orders)
    × ((t : ℕ)
        → let later = record stranded.1 { clock = t; schedule = [] } in
          handle_event test_sdk completed_event later ≡ (retry_later, later))
unfolding find_row any_row
claim_failure_strands_example =
    claim_failure_strands test_sdk completed_event pending_world 1 2 3 refl refl refl refl

euro-Builds : (x : Error) × Builds test_sdk completed_event euro_world (err x)
euro-Builds =
    mismatch-Builds test_sdk completed_event euro_world paid_session refl euro_mismatch
      (completed refl refl refl)

delivery-Verdict_example :
    Leaves completed_event processing_failed euro_world.tables.orders WebhookStatus.failed
      (handle_event test_sdk completed_event euro_world)
delivery-Verdict_example =
    delivery-Verdict test_sdk completed_event euro_world refl euro-Ready euro-Builds.1
      (no_completion euro-Builds.0)
