-- ===== src/Fakes/Agreement.antt =====
-- backend/internal/testutil/fake_webhook_store.go against backend/internal/db/webhooks.go: the calls on which
-- they agree.
use stripe_payment_integrati.Db.Table.{Keyed-update_rows}
use stripe_payment_integrati.Db.Soundness.Rows.{find_row-fresh}
use stripe_payment_integrati.Prelude.{◌&&◌, arith}
use stripe_payment_integrati.Domain.{is_processing, WebhookStatus}
use stripe_payment_integrati.Db.EventLaws.{insert-inserts, selected, complete-steps}
use mathlib.Core.Option.{some}
use stripe_payment_integrati.Db.Webhooks.{
  same_event, is_event, can_claim, in_processing, claimed_at, WebhookCompletion, order_effect,
  ignored_at, processed_for,
}
use stripe_payment_integrati.Db.Table.{any_row, find_row, update_rows}
use stripe_payment_integrati.Db.{Tables, WebhookEvent, ok}
use stripe_payment_integrati.Fakes.WebhookStore.{
  FakeWebhookStore, claimed_event, assign, ignored_event, completed_event,
}
use stripe_payment_integrati.Fakes.Calls.{
  Answer, on_tables, Agrees, on_fake, Call, inserted, agreed, Shows,
}
use mathlib.Core.Bool.{and-true}
use stripe_payment_integrati.Db.Webhooks
use stripe_payment_integrati.Fakes.WebhookStore
use stripe_payment_integrati.Prelude.{
  ◌≡◌, refl, ℕ, String, ap, false, some, true, subst, coalesce, sym,
}

-- both answer alike and agree afterwards
abbrev pub Alike : Answer × FakeWebhookStore → Answer × Tables → Type 0
Alike x y = (x.0 ≡ y.0) × Agrees x.1 y.1

module _ (now : ℕ) (f : FakeWebhookStore) (db : Tables) (a : Agrees f db) where
  pub look-Alike :
      (k : String) → Alike (on_fake (Call.look k) now f) (on_tables (Call.look k) now db)
  unfolding WebhookStore.get_webhook_event Webhooks.get_webhook_event
  look-Alike k = rw a.unscripted.looks (
    ap Answer.event (a.shows k),
    record {
      unscripted = record {
        claims = a.unscripted.claims;
        looks = refl;
        updates = a.unscripted.updates;
        completes = a.unscripted.completes;
      };
      shows = a.shows;
      keyed = a.keyed;
    },
  )

  pub insert-Alike :
      (e : WebhookEvent)
      → any_row (same_event e) db.events ≡ false
      → Alike (on_fake (Call.insert e) now f) (on_tables (Call.insert e) now db)
  unfolding WebhookStore.insert_webhook_event
  insert-Alike e fresh = rw (insert-inserts e now db fresh) (
    refl,
    record {
      unscripted = a.unscripted;
      shows = inserted e now f.events db.events a.shows;
      keyed = (
        find_row-fresh (is_event e.stripe_event_id) (same_event e) db.events
            (λ b apart. ground arith) fresh,
        a.keyed,
      );
    },
  )

  pub claim-Alike :
      (k : String) (found : WebhookEvent)
      → find_row (is_event k) db.events ≡ some found
      → can_claim now found ≡ true
      → Alike (on_fake (Call.claim k) now f) (on_tables (Call.claim k) now db)
  unfolding WebhookStore.claim_webhook_event Webhooks.claim_webhook_event
  claim-Alike k found at_k may =
      rw (a.unscripted.claims, selected k db.events found at_k (can_claim now) may)
        (
          refl,
          record {
            unscripted = record {
              claims = refl;
              looks = a.unscripted.looks;
              updates = a.unscripted.updates;
              completes = a.unscripted.completes;
            };
            shows =
                agreed k (claimed_event now) (claimed_at now) (can_claim now) f.events db.events
                  found (λ e. refl) at_k may
                  (λ e same. ap (λ s. (WebhookStatus.processing, s.1)) same) a.shows;
            keyed =
                Keyed-update_rows (λ (b : WebhookEvent). b.stripe_event_id) (claimed_at now)
                  (λ b. refl) (λ b. is_event k b && can_claim now b) db.events a.keyed;
          },
        )

  pub fail-Alike :
      (k : String) (found : WebhookEvent)
      → find_row (is_event k) db.events ≡ some found
      → is_processing found.processing_status ≡ true
      → Alike (on_fake (Call.fail k) now f) (on_tables (Call.fail k) now db)
  unfolding WebhookStore.fail_webhook_event Webhooks.fail_webhook_event
  fail-Alike k found at_k busy =
      rw (selected k db.events found at_k (λ e. is_processing e.processing_status) busy) (
        refl,
        record {
          unscripted = a.unscripted;
          shows =
              agreed k WebhookStore.failed_event Webhooks.failed_event
                (λ e. is_processing e.processing_status) f.events db.events found (λ e. refl) at_k
                busy (λ e same. ap (λ s. (WebhookStatus.failed, s.1)) same) a.shows;
          keyed =
              Keyed-update_rows (λ (b : WebhookEvent). b.stripe_event_id) (Webhooks.failed_event)
                (λ b. refl) (in_processing k) db.events a.keyed;
        },
      )

  pub ignore-Alike :
      (k : String) (found : WebhookEvent)
      → find_row (is_event k) db.events ≡ some found
      → Alike (on_fake (Call.ignore k) now f) (on_tables (Call.ignore k) now db)
  unfolding WebhookStore.mark_webhook_ignored Webhooks.mark_webhook_ignored
  ignore-Alike k found at_k = (
    refl,
    record {
      unscripted = a.unscripted;
      shows =
          subst
            (λ p.
              Shows (assign k ignored_event f.events) (update_rows p (ignored_at now) db.events))
            (λ i e. and-true (is_event k e) i)
            (agreed k ignored_event (ignored_at now) (λ e. true) f.events db.events found
              (λ e. refl) at_k refl (λ e same. ap (λ s. (WebhookStatus.ignored, s.1)) same)
              a.shows);
      keyed =
          Keyed-update_rows (λ (b : WebhookEvent). b.stripe_event_id) (ignored_at now) (λ b. refl)
            (is_event k) db.events a.keyed;
    },
  )

  pub complete-Alike :
      (c : WebhookCompletion) (found : WebhookEvent)
      → find_row (is_event c.stripe_event_id) db.events ≡ some found
      → is_processing found.processing_status ≡ true
      → (order_effect c.refund_only c.order_id c.new_status c now db.orders).0 ≡ ok tt
      → coalesce c.order_id found.order_id ≡ c.order_id
      → Alike (on_fake (Call.complete c) now f) (on_tables (Call.complete c) now db)
  unfolding WebhookStore.complete_webhook_processing
  complete-Alike c found at_k busy effect names =
      rw
        (
          a.unscripted.completes,
          a.unscripted.updates,
          complete-steps c now db found at_k busy effect,
        )
        (
          refl,
          record {
            unscripted = record {
              claims = a.unscripted.claims;
              looks = a.unscripted.looks;
              updates = refl;
              completes = refl;
            };
            shows =
                agreed c.stripe_event_id (completed_event c.order_id) (processed_for c.order_id now)
                  (λ e. is_processing e.processing_status) f.events db.events found (λ e. refl) at_k
                  busy (λ e same. ap (λ o. (WebhookStatus.processed, o)) (sym names)) a.shows;
            keyed =
                Keyed-update_rows (λ (b : WebhookEvent). b.stripe_event_id)
                  (processed_for c.order_id now) (λ b. refl) (in_processing c.stripe_event_id)
                  db.events a.keyed;
          },
        )
