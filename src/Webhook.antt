-- ===== src/Webhook.antt =====
-- backend/internal/service/webhook.go, Handle: verify, deduplicate, claim, process and answer.
pub mod Keeping
pub mod Interleaving
pub mod Delivery
pub mod Answers
pub mod Payment
pub mod Redelivery
pub mod Refund
pub mod Exclusion
pub mod Lapse
pub mod Misreport
use stripe_payment_integrati.Prelude.{String, Bool, true, false, Option, none, some, if◌then◌else◌}
use stripe_payment_integrati.Domain.{WebhookStatus}
use stripe_payment_integrati.Db.{Result, ok, err, EventType, WebhookEvent, unique_violation}
use stripe_payment_integrati.Db.Webhooks.{
  WebhookCompletion, get_webhook_event, insert_webhook_event, claim_webhook_event,
  complete_webhook_processing, fail_webhook_event, mark_webhook_ignored,
  is_stale_webhook_processing,
}
use stripe_payment_integrati.World.{Run, pure, bind, call, new_id, read_clock}
use stripe_payment_integrati.Stripe.{Event, Sdk}
use stripe_payment_integrati.Completion.{build_completion}

pub data WebhookOutcome : Type 0 where
  invalid_signature acknowledged retry_later processing_failed : WebhookOutcome

infixl 5 ◌>>=◌
abbrev ◌>>=◌ {ℓ κ} : {A : Type ℓ} {B : Type κ} → Run A → (A → Run B) → Run B
m >>= f = bind m f

-- the map `handledEvents`
abbrev pub is_handled : EventType → Bool
is_handled (EventType.other s) = false
is_handled _ = true

-- the row of a delivery that is new
abbrev pub received_row : Event → String → WebhookEvent
received_row e id = record {
  id = id;
  stripe_event_id = e.id;
  event_type = e.event_type;
  order_id = none;
  processing_status = WebhookStatus.received;
  processed_at = none;
  processing_started_at = none;
  created_at = 0;
}

race_outcome : WebhookStatus → WebhookOutcome
race_outcome WebhookStatus.processed = acknowledged
race_outcome WebhookStatus.ignored = acknowledged
race_outcome _ = retry_later

after_race : Result (Option WebhookEvent) → WebhookOutcome
unfolding race_outcome
after_race (err e) = retry_later
after_race (ok none) = retry_later
after_race (ok (some row)) = race_outcome row.processing_status

unfoldable pub handle_existing_after_insert_race : String → Run WebhookOutcome
unfolding after_race
handle_existing_after_insert_race id = do
  existing ← call (get_webhook_event id)
  pure (after_race existing)

unclaimed_outcome : WebhookStatus → WebhookOutcome
unclaimed_outcome WebhookStatus.processed = acknowledged
unclaimed_outcome WebhookStatus.failed = processing_failed
unclaimed_outcome _ = retry_later

after_unclaimed : Result (Option WebhookEvent) → WebhookOutcome
unfolding unclaimed_outcome
after_unclaimed (err e) = retry_later
after_unclaimed (ok none) = retry_later
after_unclaimed (ok (some row)) = unclaimed_outcome row.processing_status

unfoldable pub handle_unclaimed_event : String → Run WebhookOutcome
unfolding after_unclaimed
handle_unclaimed_event id = do
  existing ← call (get_webhook_event id)
  pure (after_unclaimed existing)

abbrev pub completed_outcome : Result (Unit {0}) → WebhookOutcome
completed_outcome (ok _) = acknowledged
completed_outcome (err e) = processing_failed

-- an error of the completion marks the event as failed
unfoldable pub finish : Event → Result WebhookCompletion → Run WebhookOutcome
finish e (ok c) = do done ← call (complete_webhook_processing c); pure (completed_outcome done)
finish e (err x) = do marked ← call (fail_webhook_event e.id); pure processing_failed

module _ (sdk : Sdk) where
  unfoldable pub process_claim : Event → Result Bool → Run WebhookOutcome
  process_claim e (err x) = pure retry_later
  process_claim e (ok false) = handle_unclaimed_event e.id
  process_claim e (ok true) = do completion ← build_completion sdk e; finish e completion

  ignore : Event → Run WebhookOutcome
  ignore e = do marked ← call (mark_webhook_ignored e.id); pure acknowledged

  claim : Event → Run WebhookOutcome
  claim e = do claimed ← call (claim_webhook_event e.id); process_claim e claimed

  unfoldable pub process : Event → Run WebhookOutcome
  unfolding ignore claim
  process e = if is_handled e.event_type then claim e else ignore e

  unfoldable pub after_insert : Event → Result (Unit {0}) → Run WebhookOutcome
  after_insert e (ok _) = process e
  after_insert e (err unique_violation) = handle_existing_after_insert_race e.id
  after_insert e (err _) = pure retry_later

  record_event : Event → Run WebhookOutcome
  record_event e = do
    id ← new_id
    inserted ← call (insert_webhook_event (received_row e id))
    after_insert e inserted

  unfoldable pub receive : Event → Run WebhookOutcome
  unfolding record_event
  receive e = if sdk.can_marshal e then record_event e else pure processing_failed

  -- the `switch` on the status of an event that is on record
  unfoldable pub resume : Event → WebhookStatus → Bool → Run WebhookOutcome
  resume e WebhookStatus.processed stale = pure acknowledged
  resume e WebhookStatus.ignored stale = pure acknowledged
  resume e WebhookStatus.failed stale = process e
  resume e WebhookStatus.received stale = pure retry_later
  resume e WebhookStatus.processing stale = if stale then process e else pure retry_later

  unfoldable pub deduplicate : Event → Result (Option WebhookEvent) → Run WebhookOutcome
  deduplicate e (err x) = pure retry_later
  deduplicate e (ok none) = receive e
  deduplicate e (ok (some row)) = do
    now ← read_clock
    resume e row.processing_status (is_stale_webhook_processing row now)

  unfoldable pub handle_event : Event → Run WebhookOutcome
  unfolding deduplicate
  handle_event e = do existing ← call (get_webhook_event e.id); deduplicate e existing

  unfoldable pub handle_verified : Option Event → Run WebhookOutcome
  handle_verified none = pure invalid_signature
  handle_verified (some e) = handle_event e

  unfoldable pub handle : String → String → Run WebhookOutcome
  unfolding handle_verified
  handle body signature = handle_verified (sdk.construct_event body signature)
