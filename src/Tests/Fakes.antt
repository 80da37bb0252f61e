-- ===== src/Tests/Fakes.antt =====
-- The stores of the repository's tests, over the calls of one delivery, and one claim more.
use stripe_payment_integrati.Fakes.Calls.{Agrees, Call}
use stripe_payment_integrati.Fakes.WebhookStore.{new_fake_webhook_store}
use stripe_payment_integrati.Db.Table.{find_row}
use stripe_payment_integrati.Fakes.Refinement.{Calls, Follows, calls-Follows}
use stripe_payment_integrati.Db.{WebhookEvent, EventType, no_rows}
use stripe_payment_integrati.Db.Webhooks.{WebhookCompletion}
use stripe_payment_integrati.Prelude.{refl, ◌∷◌, [], none, false}
use stripe_payment_integrati.Domain.{WebhookStatus}

abbrev reported : WebhookEvent
reported = record {
  id = "w";
  stripe_event_id = "evt_1";
  event_type = EventType.session_completed;
  order_id = none;
  processing_status = WebhookStatus.received;
  processed_at = none;
  processing_started_at = none;
  created_at = 0;
}

abbrev no_change : WebhookCompletion
no_change = record {
  stripe_event_id = "evt_1";
  order_id = none;
  new_status = none;
  payment_intent_id = none;
  paid_at = none;
  allowed_from = [];
  refund_only = false;
}

abbrev delivery : Calls
delivery =
    (100, Call.insert reported)
    ∷ (200, Call.claim "evt_1")
    ∷ (300, Call.complete no_change)
    ∷ (400, Call.look "evt_1")
    ∷ (500, Call.claim "evt_1")
    ∷ []

new-Agrees : Agrees new_fake_webhook_store no_rows
unfolding find_row
new-Agrees = record {
  unscripted = record { claims = refl; looks = refl; updates = refl; completes = refl };
  shows = λ k. refl;
  keyed = tt;
}

calls-Follows_example : Follows delivery new_fake_webhook_store no_rows
calls-Follows_example = calls-Follows delivery new_fake_webhook_store no_rows new-Agrees
