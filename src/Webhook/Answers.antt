-- ===== src/Webhook/Answers.antt =====
-- The answer to an undisturbed delivery of a handled event, by what its completion comes to.
use stripe_payment_integrati.Webhook.Delivery.{Ready, Ready-Processed}
use stripe_payment_integrati.Domain.{WebhookStatus, is_processing}
use stripe_payment_integrati.World.{bind, World, call, with_tables, quietly}
use stripe_payment_integrati.Db.EventLaws.{
  claim-claims, fail-fails, complete-refused, complete-completes,
}
use stripe_payment_integrati.Db.Table.{find_row}
use stripe_payment_integrati.Completion.{build_completion}
use stripe_payment_integrati.Db.Webhooks.{
  WebhookCompletion, claim_webhook_event, is_event, can_claim, claimed_at, order_effect,
  fail_webhook_event, failed_event, processed_for, complete_webhook_processing,
}
use stripe_payment_integrati.Webhook.{
  is_handled, process, finish, process_claim, processing_failed, WebhookOutcome, acknowledged,
  handle_event,
}
use stripe_payment_integrati.Stripe.{Sdk, Event}
use stripe_payment_integrati.Prelude.{◌≡◌, refl, true, some, ap, ◌∙◌, String, List, subst}
use stripe_payment_integrati.Db.{ok, err, Result, WebhookEvent, Error, Order, Tables}

-- The completion of an event at the tables' orders and the clock of `w`.
abbrev pub Builds : Sdk → Event → World → Result WebhookCompletion → Type 0
Builds sdk e w r =
    (v : World)
    → v.tables.orders ≡ w.tables.orders
    → v.clock ≡ w.clock
    → build_completion sdk e (quietly v) ≡ (r, quietly v)

module _ (sdk : Sdk) (e : Event) (w : World) (handled : is_handled e.event_type ≡ true) where
  abbrev claimed : World
  claimed = with_tables w (claim_webhook_event e.id w.clock w.tables).1

  module _ (row : WebhookEvent) (found : find_row (is_event e.id) w.tables.events ≡ some row)
      (claims : can_claim w.clock row ≡ true) where
    claim_run : process sdk e (quietly w) ≡ bind (build_completion sdk e) (finish e) claimed
    unfolding process call process_claim
    claim_run = rw (handled, (claim-claims e.id w.clock w.tables row found claims).0)

    claimed_row : find_row (is_event e.id) claimed.tables.events ≡ some (claimed_at w.clock row)
    claimed_row = (claim-claims e.id w.clock w.tables row found claims).1

    claimed_orders : claimed.tables.orders ≡ w.tables.orders
    unfolding claim_webhook_event
    claimed_orders = refl

    finish_run :
        (r : Result WebhookCompletion)
        → Builds sdk e w r
        → process sdk e (quietly w) ≡ finish e r claimed
    finish_run r builds =
        claim_run
        ∙ ap (λ (x : Result WebhookCompletion × World). finish e x.0 x.1)
            (builds claimed claimed_orders refl)

-- The event is on record with this status.
abbrev pub EventIs : String → WebhookStatus → Tables → Type 0
EventIs id s db =
    (row : WebhookEvent) × (find_row (is_event id) db.events ≡ some row)
    × (row.processing_status ≡ s)

-- the order update of a completion, at the orders and the clock of a world
abbrev pub effect_at : WebhookCompletion → World → Result (Unit {0}) × List Order
effect_at c w = order_effect c.refund_only c.order_id c.new_status c w.clock w.tables.orders

-- What an outcome leaves: the answer, the orders and the status of the event.
pub record Leaves (e : Event) (x : WebhookOutcome) (orders : List Order) (s : WebhookStatus)
    (r : WebhookOutcome × World) : Type 0 where
  pub answer : r.0 ≡ x
  pub orders_left : r.1.tables.orders ≡ orders
  pub event_left : EventIs e.id s r.1.tables

module _ (e : Event) (v : World) (row : WebhookEvent)
    (on_record : find_row (is_event e.id) v.tables.events ≡ some row)
    (busy : row.processing_status ≡ WebhookStatus.processing) where
  is_busy : is_processing row.processing_status ≡ true
  is_busy = rw busy

  finish-err :
      (x : Error)
      → Leaves e processing_failed v.tables.orders WebhookStatus.failed
          (finish e (err x) (quietly v))
  unfolding finish call fail_webhook_event
  finish-err x = record {
    answer = refl;
    orders_left = refl;
    event_left =
        (failed_event row, (fail-fails e.id v.clock v.tables row on_record is_busy).1, refl);
  }

  finish-ok :
      (c : WebhookCompletion)
      → c.stripe_event_id ≡ e.id
      → (effect_at c v).0 ≡ ok tt
      → Leaves e acknowledged
          (effect_at c v).1
          WebhookStatus.processed
          (finish e (ok c) (quietly v))
  unfolding finish call
  finish-ok c same effect =
      let at_event : find_row (is_event c.stripe_event_id) v.tables.events ≡ some row =
        rw same on_record in
      let (done, orders, left) =
        complete-completes c v.clock v.tables row at_event is_busy effect in
      record {
        answer = rw done;
        orders_left = orders;
        event_left = (
          processed_for c.order_id v.clock row,
          subst
              (λ k.
                find_row (is_event k) (complete_webhook_processing c v.clock v.tables).1.events
                ≡ some (processed_for c.order_id v.clock row))
              same left,
          refl,
        );
      }

  finish-refused :
      (c : WebhookCompletion) (x : Error)
      → (effect_at c v).0 ≡ err x
      → Leaves e processing_failed v.tables.orders WebhookStatus.processing
          (finish e (ok c) (quietly v))
  unfolding finish call
  finish-refused c x effect =
      rw (complete-refused c v.clock v.tables x effect)
        (record { answer = refl; orders_left = refl; event_left = (row, on_record, busy) })

-- The completion and whether its order update is satisfied decide what a delivery leaves.
pub data Verdict (e : Event) (w : World)
    : Result WebhookCompletion → WebhookOutcome → List Order → WebhookStatus → Type 0 where
  done :
      (c : WebhookCompletion)
      → c.stripe_event_id ≡ e.id
      → (effect_at c w).0 ≡ ok tt
      → Verdict e w (ok c) acknowledged (effect_at c w).1 WebhookStatus.processed
  no_effect_on_order :
      (c : WebhookCompletion) (x : Error)
      → (effect_at c w).0 ≡ err x
      → Verdict e w (ok c) processing_failed w.tables.orders WebhookStatus.processing
  no_completion :
      (x : Error) → Verdict e w (err x) processing_failed w.tables.orders WebhookStatus.failed

finish-Verdict :
    (e : Event) (v w : World) (row : WebhookEvent)
    → find_row (is_event e.id) v.tables.events ≡ some row
    → row.processing_status ≡ WebhookStatus.processing
    → v.tables.orders ≡ w.tables.orders
    → v.clock ≡ w.clock
    → {r : Result WebhookCompletion} {x : WebhookOutcome} {orders : List Order} {s : WebhookStatus}
    → Verdict e w r x orders s
    → Leaves e x orders s (finish e r (quietly v))
finish-Verdict e v w row on_record busy same_orders same_clock (done c same effect) =
    let agree : effect_at c v ≡ effect_at c w = rw (same_orders, same_clock) in
    rw (← agree) (
      finish-ok e v row on_record busy c same
        (ap (λ (r : Result (Unit {0}) × List Order). r.0) agree ∙ effect))
finish-Verdict e v w row on_record busy same_orders same_clock (no_effect_on_order c x effect) =
    let agree : effect_at c v ≡ effect_at c w = rw (same_orders, same_clock) in
    rw (← same_orders) (
      finish-refused e v row on_record busy c x
        (ap (λ (r : Result (Unit {0}) × List Order). r.0) agree ∙ effect))
finish-Verdict e v w row on_record busy same_orders same_clock (no_completion x) =
    rw (← same_orders) (finish-err e v row on_record busy x)

-- An undisturbed delivery of a handled event that is new, failed or stale: where its completion
-- succeeds and the order has changed, or was there already, it is acknowledged and the event is
-- processed; where the order can no longer take the change, processing failed, the orders are as
-- they were and the event stays in processing; where there is no completion, processing failed, the
-- orders are as they were and the event is marked as failed, so that Stripe's retry is taken up.
pub delivery-Verdict :
    (sdk : Sdk) (e : Event) (w : World)
    → is_handled e.event_type ≡ true
    → Ready sdk e w
    → {r : Result WebhookCompletion} {x : WebhookOutcome} {orders : List Order} {s : WebhookStatus}
    → Builds sdk e w r
    → Verdict e w r x orders s
    → Leaves e x orders s (handle_event sdk e (quietly w))
delivery-Verdict sdk e w handled ready {r} builds verdict =
    let (w₁, row, p) = Ready-Processed sdk e w ready in
    let claims : can_claim w₁.clock row ≡ true = rw p.same_clock p.claimable_row in
    rw
      (
        p.same_run,
        finish_run sdk e w₁ handled row p.on_record claims r
            (λ v o t. builds v (o ∙ p.same_orders) (t ∙ p.same_clock)),
      )
      (finish-Verdict e (claimed sdk e w₁ handled) w (claimed_at w₁.clock row)
        (claimed_row sdk e w₁ handled row p.on_record claims) refl
        (claimed_orders sdk e w₁ handled row p.on_record claims ∙ p.same_orders) p.same_clock
        verdict)
