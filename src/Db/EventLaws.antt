-- ===== src/Db/EventLaws.antt =====
-- What the statements on one webhook event do to its row.
use stripe_payment_integrati.Domain.{is_processing}
use stripe_payment_integrati.Prelude.{
  ℕ, String, ◌==◌, ◌≡◌, refl, Bool, true, ◌&&◌, some, List, ltb, arith, ap, false, ◌∷◌, eq_refl,
}
use stripe_payment_integrati.Db.{
  Tables, WebhookEvent, ok, Error, err, Result, Order, not_processing,
}
use stripe_payment_integrati.Db.Table.{
  find_row, update_rows, affected, find_row_sound, find_row-update_rows, affected-pos, any_row,
}
use stripe_payment_integrati.Db.Webhooks.{
  is_event, can_claim, claimed_at, claim_webhook_event, complete_webhook_processing,
  fail_webhook_event, mark_webhook_ignored, insert_webhook_event, WebhookCompletion, ignored_at,
  same_event, order_effect, processed_for, finish_completion, failed_event, in_processing,
}

module _ (k : String) (events : List WebhookEvent) (row : WebhookEvent)
    (found : find_row (is_event k) events ≡ some row) where
  -- An update of the event's row that its test selects.
  pub updated :
      (r : WebhookEvent → Bool) (f : WebhookEvent → WebhookEvent)
      → ((e : WebhookEvent) → (f e).stripe_event_id ≡ e.stripe_event_id)
      → r row ≡ true
      → find_row (is_event k) (update_rows (λ e. is_event k e && r e) f events) ≡ some (f row)
  updated r f keeps h =
      rw
        (find_row-update_rows (is_event k) (λ e. is_event k e && r e) f events
          (λ e. ap (λ i. i == k) (keeps e)))
        (rw found (rw (find_row_sound (is_event k) events row found, h) refl))

  pub selected :
      (r : WebhookEvent → Bool)
      → r row ≡ true
      → ltb 0 (affected (λ e. is_event k e && r e) events) ≡ true
  selected r h = ground (
    arith,
    affected-pos (is_event k) (λ e. is_event k e && r e) events row found
        (rw (find_row_sound (is_event k) events row found, h) refl),
  )

-- A claimable event is claimed, and its row says so.
pub claim-claims :
    (k : String) (now : ℕ) (db : Tables) (row : WebhookEvent)
    → find_row (is_event k) db.events ≡ some row
    → can_claim now row ≡ true
    → ((claim_webhook_event k now db).0 ≡ ok true)
      × (find_row (is_event k) (claim_webhook_event k now db).1.events ≡ some (claimed_at now row))
unfolding claim_webhook_event
claim-claims k now db row found h = (
  rw (selected k db.events row found (can_claim now) h),
  updated k db.events row found (can_claim now) (claimed_at now) (λ e. refl) h,
)

-- The tables after an event that is being processed is completed, where its order update is satisfied.
pub complete-steps :
    (c : WebhookCompletion) (now : ℕ) (db : Tables) (row : WebhookEvent)
    → find_row (is_event c.stripe_event_id) db.events ≡ some row
    → is_processing row.processing_status ≡ true
    → (order_effect c.refund_only c.order_id c.new_status c now db.orders).0 ≡ ok tt
    → complete_webhook_processing c now db ≡ (
      ok tt,
      record db {
        orders = (order_effect c.refund_only c.order_id c.new_status c now db.orders).1;
        events =
            update_rows (in_processing c.stripe_event_id) (processed_for c.order_id now) db.events;
      },
    )
unfolding complete_webhook_processing
complete-steps c now db row found h effect =
    finished (order_effect c.refund_only c.order_id c.new_status c now db.orders) effect
  where
    finished :
        (x : Result (Unit {0}) × List Order)
        → x.0 ≡ ok tt
        → finish_completion c now db x ≡ (
          ok tt,
          record db {
            orders = x.1;
            events =
                update_rows
                  (in_processing c.stripe_event_id)
                  (processed_for c.order_id now)
                  db.events;
          },
        )
    finished (ok u, orders) e =
        rw
          (selected c.stripe_event_id db.events row found (λ e. is_processing e.processing_status)
            h)
          refl
    finished (err x, orders) e = absurd (ground arith)

pub complete-completes :
    (c : WebhookCompletion) (now : ℕ) (db : Tables) (row : WebhookEvent)
    → find_row (is_event c.stripe_event_id) db.events ≡ some row
    → is_processing row.processing_status ≡ true
    → (order_effect c.refund_only c.order_id c.new_status c now db.orders).0 ≡ ok tt
    → ((complete_webhook_processing c now db).0 ≡ ok tt)
      × ((complete_webhook_processing c now db).1.orders
          ≡ (order_effect c.refund_only c.order_id c.new_status c now db.orders).1)
      × (find_row (is_event c.stripe_event_id) (complete_webhook_processing c now db).1.events
          ≡ some (processed_for c.order_id now row))
complete-completes c now db row found h effect = rw (complete-steps c now db row found h effect) (
  refl,
  refl,
  updated c.stripe_event_id db.events row found (λ e. is_processing e.processing_status)
      (processed_for c.order_id now) (λ e. refl) h,
)

-- An event that is not being processed is not completed.
pub complete-idle :
    (c : WebhookCompletion) (now : ℕ) (db : Tables)
    → affected (in_processing c.stripe_event_id) db.events ≡ 0
    → (order_effect c.refund_only c.order_id c.new_status c now db.orders).0 ≡ ok tt
    → complete_webhook_processing c now db ≡ (err not_processing, db)
unfolding complete_webhook_processing
complete-idle c now db idle effect =
    finished (order_effect c.refund_only c.order_id c.new_status c now db.orders) effect
  where
    finished :
        (x : Result (Unit {0}) × List Order)
        → x.0 ≡ ok tt
        → finish_completion c now db x ≡ (err not_processing, db)
    finished (ok u, orders) e = rw idle refl
    finished (err x, orders) e = absurd (ground arith)

-- A refused order update rolls everything back.
pub complete-refused :
    (c : WebhookCompletion) (now : ℕ) (db : Tables) (x : Error)
    → (order_effect c.refund_only c.order_id c.new_status c now db.orders).0 ≡ err x
    → complete_webhook_processing c now db ≡ (err x, db)
unfolding complete_webhook_processing
complete-refused c now db x h =
    finished (order_effect c.refund_only c.order_id c.new_status c now db.orders) h
  where
    finished :
        (y : Result (Unit {0}) × List Order)
        → y.0 ≡ err x
        → finish_completion c now db y ≡ (err x, db)
    finished (err z, orders) e = cc
    finished (ok u, orders) e = absurd (ground arith)

pub fail-fails :
    (k : String) (now : ℕ) (db : Tables) (row : WebhookEvent)
    → find_row (is_event k) db.events ≡ some row
    → is_processing row.processing_status ≡ true
    → ((fail_webhook_event k now db).0 ≡ ok tt)
      × (find_row (is_event k) (fail_webhook_event k now db).1.events ≡ some (failed_event row))
unfolding fail_webhook_event
fail-fails k now db row found h = (
  rw (selected k db.events row found (λ e. is_processing e.processing_status) h),
  updated k db.events row found (λ e. is_processing e.processing_status) failed_event (λ e. refl) h,
)

pub ignore-ignores :
    (k : String) (now : ℕ) (db : Tables) (row : WebhookEvent)
    → find_row (is_event k) db.events ≡ some row
    → find_row (is_event k) (mark_webhook_ignored k now db).1.events ≡ some (ignored_at now row)
unfolding mark_webhook_ignored
ignore-ignores k now db row found =
    rw (find_row-update_rows (is_event k) (is_event k) (ignored_at now) db.events (λ e. refl))
      (rw found (rw (find_row_sound (is_event k) db.events row found)))

-- The row of a delivery whose event and row ids are both new.
pub insert-inserts :
    (e : WebhookEvent) (now : ℕ) (db : Tables)
    → any_row (same_event e) db.events ≡ false
    → insert_webhook_event e now db
      ≡ (ok tt, record db { events = record e { created_at = now } ∷ db.events })
unfolding insert_webhook_event
insert-inserts e now db h = rw h

pub insert-found :
    (e : WebhookEvent) (now : ℕ) (db : Tables)
    → any_row (same_event e) db.events ≡ false
    → find_row (is_event e.stripe_event_id) (insert_webhook_event e now db).1.events
      ≡ some (record e { created_at = now })
unfolding insert_webhook_event find_row
insert-found e now db h = rw h (rw (eq_refl e.stripe_event_id))
