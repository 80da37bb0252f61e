-- ===== src/Webhook/Exclusion.antt =====
-- backend/internal/service/webhook.go, Handle, and ClaimWebhookEvent: two deliveries of one event.
use stripe_payment_integrati.Stripe.{Sdk, Event}
use stripe_payment_integrati.World.{call, World, quietly}
use stripe_payment_integrati.Webhook.{
  process, claim, process_claim, call, handle_unclaimed_event, after_unclaimed, unclaimed_outcome,
  Sdk, is_handled, retry_later,
}
use stripe_payment_integrati.Db.EventLaws.{claim-claims}
use stripe_payment_integrati.Db.Webhooks.{
  is_event, can_claim, stale_webhook_processing, claim_webhook_event, claimable, claimed_at,
  get_webhook_event,
}
use stripe_payment_integrati.Db.Table.{
  Keyed, find_row, affected, affected-zero, update_rows-none, Keyed-update_rows,
}
use stripe_payment_integrati.Db.{Tables, WebhookEvent, ok}
use stripe_payment_integrati.Prelude.{
  ℕ, ◌+◌, ◌≤◌, String, ◌≡◌, refl, true, false, ◌&&◌, some, arith,
}

module _ (k : String) (t later : ℕ) (db : Tables) (row : WebhookEvent)
    (keyed : Keyed (λ (q : WebhookEvent). q.stripe_event_id) db.events)
    (found : find_row (is_event k) db.events ≡ some row) (claims : can_claim t row ≡ true)
    (soon : later ≤ t + stale_webhook_processing) where
  abbrev claimed : Tables
  claimed = (claim_webhook_event k t db).1

  still_held : can_claim later (claimed_at t row) ≡ false
  unfolding claimable
  still_held = ground arith

  none_claimable : affected (λ q. is_event k q && can_claim later q) claimed.events ≡ 0
  unfolding claim_webhook_event
  none_claimable =
      affected-zero (λ (q : WebhookEvent). q.stripe_event_id) k (can_claim later) claimed.events
        (claimed_at t row)
        (Keyed-update_rows (λ (q : WebhookEvent). q.stripe_event_id) (claimed_at t) (λ q. refl)
          (λ q. is_event k q && can_claim t q) db.events keyed)
        (claim-claims k t db row found claims).1 still_held

  second_claim : claim_webhook_event k later claimed ≡ (ok false, claimed)
  unfolding claim_webhook_event
  second_claim =
      rw
        (
          none_claimable,
          update_rows-none (λ q. is_event k q && can_claim later q) (claimed_at later)
              claimed.events none_claimable,
        )
        refl

-- One worker has claimed the event at a time `t`. Another delivery that comes to its claim within five
-- minutes of it, undisturbed, does not process the event: it is answered retry_later and changes nothing.
pub claim-excludes :
    (sdk : Sdk) (e : Event) (w : World) (t : ℕ) (row : WebhookEvent)
    → is_handled e.event_type ≡ true
    → Keyed (λ (q : WebhookEvent). q.stripe_event_id) w.tables.events
    → find_row (is_event e.id) w.tables.events ≡ some row
    → can_claim t row ≡ true
    → w.clock ≤ t + stale_webhook_processing
    → let busy = record (quietly w) { tables = (claim_webhook_event e.id t w.tables).1 } in
      process sdk e busy ≡ (retry_later, busy)
unfolding process claim process_claim call handle_unclaimed_event after_unclaimed unclaimed_outcome
    get_webhook_event
claim-excludes sdk e w t row handled keyed found claims soon =
    rw
      (
        handled,
        second_claim e.id t w.clock w.tables row keyed found claims soon,
        (claim-claims e.id t w.tables row found claims).1,
      )
      refl
