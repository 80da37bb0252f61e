-- ===== src/Webhook/Redelivery.antt =====
-- Deliveries of an event that is on record already, and of one that the service does not handle.
use stripe_payment_integrati.Db.EventLaws.{ignore-ignores, insert-inserts, insert-found}
use stripe_payment_integrati.Webhook.Answers.{Leaves}
use stripe_payment_integrati.Webhook.Delivery.{Ready, Ready-Processed}
use stripe_payment_integrati.Db.Table.{find_row, any_row}
use stripe_payment_integrati.Db.Webhooks.{
  get_webhook_event, is_event, is_stale_webhook_processing, same_event, mark_webhook_ignored,
  insert_webhook_event, ignored_at,
}
use stripe_payment_integrati.Webhook.{
  handle_event, acknowledged, resume, WebhookOutcome, process, retry_later, is_handled,
  received_row, receive, after_insert, process_claim,
}
use stripe_payment_integrati.World.{call, new_id, World, quietly, Fault, Moment}
use stripe_payment_integrati.Domain.{WebhookStatus}
use stripe_payment_integrati.Stripe.{Sdk, Event}
use stripe_payment_integrati.Prelude.{
  ◌≡◌, refl, true, false, none, some, ◌+◌, suc, ap, ◌∷◌, [], Bool, ℕ,
}
use stripe_payment_integrati.Db.{ok, WebhookEvent, Tables, Result}

-- The statuses on record at which Handle answers without going on, by whether the row is stale.
pub data AnsweredAtOnce : WebhookStatus → Bool → WebhookOutcome → Type 0 where
  on_processed : {stale : Bool} → AnsweredAtOnce WebhookStatus.processed stale acknowledged
  on_ignored : {stale : Bool} → AnsweredAtOnce WebhookStatus.ignored stale acknowledged
  on_received : {stale : Bool} → AnsweredAtOnce WebhookStatus.received stale retry_later
  on_processing : AnsweredAtOnce WebhookStatus.processing false retry_later

module _ (sdk : Sdk) (e : Event) (w : World) where
  resume-at_once :
      {s : WebhookStatus} {stale : Bool} {x : WebhookOutcome}
      → AnsweredAtOnce s stale x
      → resume sdk e s stale (quietly w) ≡ (x, quietly w)
  unfolding resume
  resume-at_once on_processed = refl
  resume-at_once on_ignored = refl
  resume-at_once on_received = refl
  resume-at_once on_processing = refl

  -- An undisturbed delivery of an event that is on record as processed or ignored is acknowledged, and
  -- one of an event that is received, or in processing for less than five minutes, is to be retried
  -- later; either way nothing in the store changes.
  pub redelivery_at_once :
      (row : WebhookEvent) (x : WebhookOutcome)
      → find_row (is_event e.id) w.tables.events ≡ some row
      → AnsweredAtOnce row.processing_status (is_stale_webhook_processing row w.clock) x
      → handle_event sdk e (quietly w) ≡ (x, quietly w)
  unfolding handle_event get_webhook_event call
  redelivery_at_once row x found known = rw found (resume-at_once known)

  -- An undisturbed delivery of an event of a type that the service does not handle, where it is new,
  -- failed or stale, is acknowledged, and leaves the orders alone and the event ignored.
  pub unhandled_lem :
      is_handled e.event_type ≡ false
      → Ready sdk e w
      → Leaves e acknowledged w.tables.orders WebhookStatus.ignored (handle_event sdk e (quietly w))
  unfolding process call
  unhandled_lem other ready =
      let (w₁, row, p) = Ready-Processed sdk e w ready in
      rw (p.same_run, other)
        (record {
          answer = refl;
          orders_left = unfold mark_webhook_ignored in p.same_orders;
          event_left = (
            ignored_at w₁.clock row,
            ignore-ignores e.id w₁.clock w₁.tables row p.on_record,
            refl,
          );
        })

-- A moment in which time passes and nothing interferes.
abbrev pub calm : ℕ → Fault → Moment
calm elapsed fault = record { elapsed = elapsed; others = λ now db. db; fault = fault }

-- The delivery at which the claim of a new event is refused: two statements run, the third fails.
abbrev pub claim_fails : World → ℕ → ℕ → ℕ → World
claim_fails w a b c = record w {
  schedule = calm a Fault.up ∷ calm b Fault.up ∷ calm c Fault.refused ∷ [];
}

module _ (sdk : Sdk) (e : Event) (w : World) (a b c : ℕ) (handled : is_handled e.event_type ≡ true)
    (absent : find_row (is_event e.id) w.tables.events ≡ none)
    (fresh : any_row (same_event (received_row e (w.ids w.drawn))) w.tables.events ≡ false)
    (marshals : sdk.can_marshal e ≡ true) where
  abbrev first : WebhookOutcome × World
  first = handle_event sdk e (claim_fails w a b c)

  abbrev recorded : Tables
  recorded = (insert_webhook_event (received_row e (w.ids w.drawn)) (w.clock + a + b) w.tables).1

  insert_fine :
      (insert_webhook_event (received_row e (w.ids w.drawn)) (w.clock + a + b) w.tables).0 ≡ ok tt
  insert_fine =
      ap (λ (r : Result (Unit {0}) × Tables). r.0)
        (insert-inserts (received_row e (w.ids w.drawn)) (w.clock + a + b) w.tables fresh)

  first_run : first ≡ (
    retry_later,
    record w { tables = recorded; clock = w.clock + a + b + c; schedule = []; drawn = suc w.drawn },
  )
  unfolding handle_event get_webhook_event receive new_id after_insert process process_claim call
  first_run = rw (absent, marshals, insert_fine, handled)

  -- A new event of a handled type whose claim statement is refused, with nothing else disturbed: this
  -- delivery is answered retry_later and changes no order, and every undisturbed later delivery,
  -- however long after, is answered retry_later and changes nothing.
  pub claim_failure_strands :
      (first.0 ≡ retry_later)
      × (first.1.tables.orders ≡ w.tables.orders)
      × ((t : ℕ)
          → let later = record first.1 { clock = t; schedule = [] } in
            handle_event sdk e later ≡ (retry_later, later))
  claim_failure_strands =
      let kept : recorded.orders ≡ w.tables.orders =
        ap (λ (r : Result (Unit {0}) × Tables). r.1.orders)
          (insert-inserts (received_row e (w.ids w.drawn)) (w.clock + a + b) w.tables fresh) in
      rw first_run (
        refl,
        kept,
        λ t.
            redelivery_at_once sdk e
              (record w { tables = recorded; clock = t; drawn = suc w.drawn })
              (record (received_row e (w.ids w.drawn)) { created_at = w.clock + a + b }) retry_later
              (insert-found (received_row e (w.ids w.drawn)) (w.clock + a + b) w.tables fresh)
              on_received,
      )
