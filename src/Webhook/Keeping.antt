-- ===== src/Webhook/Keeping.antt =====
-- Handle keeps every relation between tables that its statements keep.
use stripe_payment_integrati.Webhook.{
  WebhookOutcome, handle_existing_after_insert_race, handle_unclaimed_event, finish, process_claim,
  process, after_insert, record_event, receive, resume, deduplicate, handle_verified, after_race,
  after_unclaimed, completed_outcome, retry_later, is_handled, received_row, processing_failed,
  acknowledged, handle_event, handle, invalid_signature,
}
use stripe_payment_integrati.Prelude.{String, Bool, true, false, Option, none, some, refl}
use stripe_payment_integrati.Domain.{WebhookStatus}
use stripe_payment_integrati.Db.{Tables, Result, ok, err, WebhookEvent, unique_violation}
use stripe_payment_integrati.Db.Webhooks.{
  WebhookCompletion, get_webhook_event, insert_webhook_event, is_stale_webhook_processing,
}
use stripe_payment_integrati.Rules.{WebhookRules}
use stripe_payment_integrati.World.{pure, bind, call}
use stripe_payment_integrati.World.Keeps.{
  Keeps, Keeps-pure, Keeps-bind, Keeps-call, Keeps-new_id, Keeps-read_clock, Keeps-if, reads-obey,
  Obeys,
}
use stripe_payment_integrati.World.Yields.{OnOk, Keeps-bind-Yields, Yields}
use stripe_payment_integrati.Stripe.{Event, Sdk}
use stripe_payment_integrati.Completion.{build_completion}
use stripe_payment_integrati.Completion.Reading.{build_completion-Keeps}

module _ {R : Tables → Tables → Type 0} {P : WebhookCompletion → Type 0}
    (rules : WebhookRules R P) where
  reading : (k : String) → Obeys R (get_webhook_event k)
  unfolding get_webhook_event
  reading k = reads-obey rules.order (get_webhook_event k) (λ t db. refl)

  answers : (x : WebhookOutcome) → Keeps R (pure x)
  answers x = Keeps-pure rules.order x

  lookup-Keeps :
      (f : Result (Option WebhookEvent) → WebhookOutcome) (k : String)
      → Keeps R (bind (call (get_webhook_event k)) (λ r. pure (f r)))
  lookup-Keeps f k =
      Keeps-bind rules.order _ _ (Keeps-call rules.order _ (reading k)) (λ r. answers (f r))

  race-Keeps : (k : String) → Keeps R (handle_existing_after_insert_race k)
  unfolding handle_existing_after_insert_race
  race-Keeps k = lookup-Keeps after_race k

  unclaimed-Keeps : (k : String) → Keeps R (handle_unclaimed_event k)
  unfolding handle_unclaimed_event
  unclaimed-Keeps k = lookup-Keeps after_unclaimed k

  finish-Keeps : (e : Event) (r : Result WebhookCompletion) → OnOk P r → Keeps R (finish e r)
  unfolding finish
  finish-Keeps e (ok c) legal =
      Keeps-bind rules.order _ _ (Keeps-call rules.order _ (rules.complete_event c legal))
        (λ done. answers (completed_outcome done))
  finish-Keeps e (err x) legal =
      Keeps-bind rules.order _ _ (Keeps-call rules.order _ (rules.fail_event e.id))
        (λ marked. answers processing_failed)

  module _ (sdk : Sdk) (built : (e : Event) → Yields (OnOk P) (build_completion sdk e)) where
    process_claim-Keeps : (e : Event) (r : Result Bool) → Keeps R (process_claim sdk e r)
    unfolding process_claim
    process_claim-Keeps e (err x) = answers retry_later
    process_claim-Keeps e (ok false) = unclaimed-Keeps e.id
    process_claim-Keeps e (ok true) =
        Keeps-bind-Yields rules.order (OnOk P) _ _ (built e)
          (build_completion-Keeps rules.order sdk e) (finish-Keeps e)

    process-Keeps : (e : Event) → Keeps R (process sdk e)
    unfolding process
    process-Keeps e =
        Keeps-if rules.order (is_handled e.event_type) _ _
          (Keeps-bind rules.order _ _ (Keeps-call rules.order _ (rules.claim_event e.id))
            (process_claim-Keeps e))
          (Keeps-bind rules.order _ _ (Keeps-call rules.order _ (rules.ignore_event e.id))
            (λ marked. answers acknowledged))

    after_insert-Keeps : (e : Event) (r : Result (Unit {0})) → Keeps R (after_insert sdk e r)
    unfolding after_insert
    after_insert-Keeps e (ok _) = process-Keeps e
    after_insert-Keeps e (err unique_violation) = race-Keeps e.id
    after_insert-Keeps e (err _) = answers retry_later

    record_event-Keeps : (e : Event) → Keeps R (record_event sdk e)
    unfolding record_event
    record_event-Keeps e = Keeps-bind rules.order _ _ (Keeps-new_id rules.order) λ id.
        Keeps-bind rules.order (call (insert_webhook_event (received_row e id))) _
          (Keeps-call rules.order (insert_webhook_event (received_row e id))
            (rules.insert_event (received_row e id)))
          (after_insert-Keeps e)

    receive-Keeps : (e : Event) → Keeps R (receive sdk e)
    unfolding receive
    receive-Keeps e =
        Keeps-if rules.order (sdk.can_marshal e) _ _ (record_event-Keeps e)
          (answers processing_failed)

    resume-Keeps : (e : Event) (s : WebhookStatus) (stale : Bool) → Keeps R (resume sdk e s stale)
    unfolding resume
    resume-Keeps e WebhookStatus.processed stale = answers acknowledged
    resume-Keeps e WebhookStatus.ignored stale = answers acknowledged
    resume-Keeps e WebhookStatus.failed stale = process-Keeps e
    resume-Keeps e WebhookStatus.received stale = answers retry_later
    resume-Keeps e WebhookStatus.processing stale =
        Keeps-if rules.order stale _ _ (process-Keeps e) (answers retry_later)

    deduplicate-Keeps :
        (e : Event) (r : Result (Option WebhookEvent)) → Keeps R (deduplicate sdk e r)
    unfolding deduplicate
    deduplicate-Keeps e (err x) = answers retry_later
    deduplicate-Keeps e (ok none) = receive-Keeps e
    deduplicate-Keeps e (ok (some row)) =
        Keeps-bind rules.order _ _ (Keeps-read_clock rules.order)
          (λ now. resume-Keeps e row.processing_status (is_stale_webhook_processing row now))

    handle_verified-Keeps : (e : Option Event) → Keeps R (handle_verified sdk e)
    unfolding handle_verified handle_event
    handle_verified-Keeps none = answers invalid_signature
    handle_verified-Keeps (some e) =
        Keeps-bind rules.order _ _ (Keeps-call rules.order _ (reading e.id)) (deduplicate-Keeps e)

    pub handle-Keeps : (body signature : String) → Keeps R (handle sdk body signature)
    unfolding handle
    handle-Keeps body signature = handle_verified-Keeps (sdk.construct_event body signature)
