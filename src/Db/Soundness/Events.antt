-- ===== src/Db/Soundness/Events.antt =====
-- Every statement on webhook events keeps a sound store sound.
use stripe_payment_integrati.Db.Soundness.Rows.{
  with_events, orders-updated, find_row-fresh, events-updated, refunded_at-OrderOk,
  moved_to-OrderOk,
}
use stripe_payment_integrati.Db.Webhooks.{
  insert_webhook_event, WebhookCompletion, complete_webhook_processing, claim_webhook_event,
  same_event, order_effect, finish_completion, fail_webhook_event, in_processing,
  mark_webhook_ignored, is_order, is_event, may_refund, processed_for, refunded_at, can_claim,
  claimed_at, may_transition, failed_event, moved_to, ignored_at,
}
use stripe_payment_integrati.Prelude.{
  ℕ, String, refl, Bool, true, false, ◌&&◌, Option, none, some, List, ◌∷◌, arith, ltb, Bool-cases,
  inl, inr,
}
use stripe_payment_integrati.Domain.{OrderStatus}
use stripe_payment_integrati.Db.{Tables, Order, WebhookEvent, Result, ok, err}
use stripe_payment_integrati.Db.Table.{any_row, affected}
use stripe_payment_integrati.Rules.{WebhookRules}
use stripe_payment_integrati.World.Keeps.{Obeys}
use stripe_payment_integrati.Completion.Legality.{Stamped, StampedTarget}
use stripe_payment_integrati.Db.Soundness.{Sound, StaysSound, StaysSound-preorder}

insert_event-Sound : (e : WebhookEvent) → Obeys StaysSound (insert_webhook_event e)
unfolding insert_webhook_event
insert_event-Sound e now db = elim (Bool-cases (any_row (same_event e) db.events)) [
  | inl h ↦ rw h (λ s. s)
  | inr h ↦ rw h λ s. with_events db s (record e { created_at = now } ∷ db.events) (
    find_row-fresh (is_event e.stripe_event_id) (same_event e) db.events (λ a c. ground arith) h,
    s.events_keyed,
  )
]

module _ (c : WebhookCompletion) (now : ℕ) (db : Tables) where
  effect-Sound :
      (refund_only : Bool) (id : Option String) (status : Option OrderStatus)
      → StampedTarget status c.paid_at
      → Sound db
      → Sound (record db { orders = (order_effect refund_only id status c now db.orders).1 })
  unfolding order_effect
  effect-Sound true (some id) status stamped s =
      orders-updated db s (λ o. is_order id o && may_refund o) (refunded_at now) (λ o. refl)
        (λ o h fine. refunded_at-OrderOk now o (ground arith) fine)
  effect-Sound false (some id) (some t) stamped s =
      orders-updated db s (λ o. is_order id o && may_transition c.allowed_from o)
        (moved_to t c.payment_intent_id c.paid_at now) (λ o. refl)
        (λ o h fine. moved_to-OrderOk t c.payment_intent_id c.paid_at now o stamped fine)
  effect-Sound false (some id) none stamped s = s
  effect-Sound true none status stamped s = s
  effect-Sound false none status stamped s = s

  finish-Sound :
      (x : Result (Unit {0}) × List Order)
      → Sound (record db { orders = x.1 })
      → Sound db
      → Sound (finish_completion c now db x).1
  unfolding finish_completion
  finish-Sound (err e, orders) after s = s
  finish-Sound (ok _, orders) after s =
      elim (Bool-cases (ltb 0 (affected (in_processing c.stripe_event_id) db.events))) [
        | inl h ↦ rw h (
            events-updated (record db { orders = orders }) after (in_processing c.stripe_event_id)
              (processed_for c.order_id now) (λ e. refl))
        | inr h ↦ rw h s
      ]

complete-Sound :
    (c : WebhookCompletion) → Stamped c → Obeys StaysSound (complete_webhook_processing c)
unfolding complete_webhook_processing
complete-Sound c stamped now db = λ s.
    finish-Sound c now db (order_effect c.refund_only c.order_id c.new_status c now db.orders)
      (effect-Sound c now db c.refund_only c.order_id c.new_status stamped s) s

pub webhook_rules : WebhookRules StaysSound Stamped
unfolding claim_webhook_event fail_webhook_event mark_webhook_ignored
webhook_rules = record {
  order = StaysSound-preorder;
  insert_event = insert_event-Sound;
  claim_event = λ k now db s.
      events-updated db s (λ e. is_event k e && can_claim now e) (claimed_at now) (λ e. refl);
  complete_event = complete-Sound;
  fail_event = λ k now db s. events-updated db s (in_processing k) failed_event (λ e. refl);
  ignore_event = λ k now db s. events-updated db s (is_event k) (ignored_at now) (λ e. refl);
}
