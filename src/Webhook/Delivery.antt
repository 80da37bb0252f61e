-- ===== src/Webhook/Delivery.antt =====
-- One delivery of an event with no interference: what Handle answers and leaves behind, by what the
-- store knows of the event and by what its completion comes to.
use stripe_payment_integrati.Db.EventLaws.{insert-inserts, insert-found}
use stripe_payment_integrati.Domain.{WebhookStatus}
use stripe_payment_integrati.Webhook.{
  handle_event, received_row, process, resume, receive, after_insert,
}
use stripe_payment_integrati.World.{new_id, call, World, quietly}
use stripe_payment_integrati.Db.Webhooks.{
  insert_webhook_event, is_event, same_event, can_claim, stale_webhook_processing,
  get_webhook_event, claimable, is_stale_webhook_processing,
}
use stripe_payment_integrati.Db.Table.{find_row, any_row}
use stripe_payment_integrati.Stripe.{Sdk, Event}
use stripe_payment_integrati.Prelude.{
  ◌≡◌, refl, true, false, none, some, ◌<◌, ◌+◌, suc, ap, [], ℕ, leb, arith, ltb,
}
use stripe_payment_integrati.Db.{ok, WebhookEvent, Result, Tables}

-- What an undisturbed delivery may rest on: the event is new, or failed before, or was left in
-- processing by a worker that is gone.
pub data Ready (sdk : Sdk) (e : Event) (w : World) : Type 0 where
  ready_new :
      find_row (is_event e.id) w.tables.events ≡ none
      → any_row (same_event (received_row e (w.ids w.drawn))) w.tables.events ≡ false
      → sdk.can_marshal e ≡ true
      → Ready sdk e w
  ready_failed :
      (row : WebhookEvent)
      → find_row (is_event e.id) w.tables.events ≡ some row
      → row.processing_status ≡ WebhookStatus.failed
      → Ready sdk e w
  ready_stale :
      (row : WebhookEvent) (t : ℕ)
      → find_row (is_event e.id) w.tables.events ≡ some row
      → row.processing_status ≡ WebhookStatus.processing
      → row.processing_started_at ≡ some t
      → t + stale_webhook_processing < w.clock
      → Ready sdk e w

-- The delivery goes on to process the event, with the orders as they were.
pub record Processed (sdk : Sdk) (e : Event) (w w₁ : World) (row : WebhookEvent) : Type 0 where
  pub same_run : handle_event sdk e (quietly w) ≡ process sdk e (quietly w₁)
  pub same_orders : w₁.tables.orders ≡ w.tables.orders
  pub same_clock : w₁.clock ≡ w.clock
  pub on_record : find_row (is_event e.id) w₁.tables.events ≡ some row
  pub claimable_row : can_claim w.clock row ≡ true

module _ (sdk : Sdk) (e : Event) (w : World) where
  abbrev inserted : World
  inserted = record w {
    tables = (insert_webhook_event (received_row e (w.ids w.drawn)) w.clock w.tables).1;
    schedule = [];
    drawn = suc w.drawn;
  }

  module _ (absent : find_row (is_event e.id) w.tables.events ≡ none)
      (fresh : any_row (same_event (received_row e (w.ids w.drawn))) w.tables.events ≡ false)
      (marshals : sdk.can_marshal e ≡ true) where
    insert_ok : (insert_webhook_event (received_row e (w.ids w.drawn)) w.clock w.tables).0 ≡ ok tt
    insert_ok =
        ap (λ (r : Result (Unit {0}) × Tables). r.0)
          (insert-inserts (received_row e (w.ids w.drawn)) w.clock w.tables fresh)

    new_run : handle_event sdk e (quietly w) ≡ process sdk e (quietly inserted)
    unfolding handle_event get_webhook_event receive new_id after_insert call
    new_run = rw (absent, marshals, insert_ok)

    new-Processed :
        Processed sdk e w inserted
          (record (received_row e (w.ids w.drawn)) { created_at = w.clock })
    unfolding claimable
    new-Processed = record {
      same_run = new_run;
      same_orders =
          ap (λ (r : Result (Unit {0}) × Tables). r.1.orders)
            (insert-inserts (received_row e (w.ids w.drawn)) w.clock w.tables fresh);
      same_clock = refl;
      on_record = insert-found (received_row e (w.ids w.drawn)) w.clock w.tables fresh;
      claimable_row = refl;
    }

  module _ (row : WebhookEvent) (found : find_row (is_event e.id) w.tables.events ≡ some row)
      (goes_on : resume sdk e row.processing_status
          (is_stale_webhook_processing row w.clock)
          (quietly w)
        ≡ process sdk e (quietly w))
      (claims : can_claim w.clock row ≡ true) where
    known-Processed : Processed sdk e w w row
    unfolding handle_event get_webhook_event call
    known-Processed = record {
      same_run = rw found goes_on;
      same_orders = refl;
      same_clock = refl;
      on_record = found;
      claimable_row = claims;
    }

  failed_goes_on :
      (row : WebhookEvent)
      → row.processing_status ≡ WebhookStatus.failed
      → (resume sdk e row.processing_status (is_stale_webhook_processing row w.clock) (quietly w)
          ≡ process sdk e (quietly w))
        × (can_claim w.clock row ≡ true)
  unfolding resume claimable
  failed_goes_on row h = (rw h, rw h)

  stale_goes_on :
      (row : WebhookEvent) (t : ℕ)
      → row.processing_status ≡ WebhookStatus.processing
      → row.processing_started_at ≡ some t
      → t + stale_webhook_processing < w.clock
      → (resume sdk e row.processing_status (is_stale_webhook_processing row w.clock) (quietly w)
          ≡ process sdk e (quietly w))
        × (can_claim w.clock row ≡ true)
  unfolding resume claimable is_stale_webhook_processing
  stale_goes_on row t h started old =
      let passed : leb (t + stale_webhook_processing) w.clock ≡ true = ground arith in
      let before : ltb (t + stale_webhook_processing) w.clock ≡ true = ground arith in
      (rw (h, started, passed), rw (h, started, before))

  pub Ready-Processed :
      Ready sdk e w → (w₁ : World) × (row : WebhookEvent) × Processed sdk e w w₁ row
  Ready-Processed (ready_new absent fresh marshals) = (
    inserted,
    record (received_row e (w.ids w.drawn)) { created_at = w.clock },
    new-Processed absent fresh marshals,
  )
  Ready-Processed (ready_failed row found h) =
      let (goes_on, claims) = failed_goes_on row h in
      (w, row, known-Processed row found goes_on claims)
  Ready-Processed (ready_stale row t found h started old) =
      let (goes_on, claims) = stale_goes_on row t h started old in
      (w, row, known-Processed row found goes_on claims)
