-- ===== src/Db/Webhooks.antt =====
-- backend/internal/db/webhooks.go: the statements on `webhook_events`, and the transaction that
-- completes an event together with its order.
use stripe_payment_integrati.Prelude.{
  ℕ, ◌+◌, String, ◌==◌, Bool, true, false, ◌&&◌, ◌||◌, not, Option, none, some, List, [], ◌∷◌, ltb,
  leb, if◌then◌else◌, coalesce,
}
use stripe_payment_integrati.Domain.{
  OrderStatus, WebhookStatus, is_processing, same_status, effect_satisfied,
}
use stripe_payment_integrati.Db.{
  Tables, Order, WebhookEvent, Result, ok, err, unique_violation, order_not_found, no_effect,
  not_processing, Statement,
}
use stripe_payment_integrati.Db.Table.{find_row, update_rows, affected, any_row, with_key}

-- five minutes
abbrev pub stale_webhook_processing : ℕ
stale_webhook_processing = 300000000000

pub record WebhookCompletion : Type 0 where
  pub stripe_event_id : String
  pub order_id : Option String
  pub new_status : Option OrderStatus
  pub payment_intent_id : Option String
  pub paid_at : Option ℕ
  pub allowed_from : List OrderStatus
  pub refund_only : Bool

abbrev pub is_event : String → WebhookEvent → Bool
is_event k = with_key (λ e. e.stripe_event_id) k

abbrev pub is_order : String → Order → Bool
is_order k = with_key (λ o. o.id) k

unfoldable pub get_webhook_event : String → Statement (Option WebhookEvent)
get_webhook_event k now db = (ok (find_row (is_event k) db.events), db)

-- `id` is the primary key and `stripe_event_id` is UNIQUE.
abbrev pub same_event : WebhookEvent → WebhookEvent → Bool
same_event new old = is_event new.stripe_event_id old || old.id == new.id

unfoldable pub insert_webhook_event : WebhookEvent → Statement (Unit {0})
insert_webhook_event e now db =
    if any_row (same_event e) db.events
    then (err unique_violation, db)
    else (ok tt, record db { events = record e { created_at = now } ∷ db.events })

-- the statuses that a claim takes outright, and a processing row that has gone stale
unfoldable pub claimable : ℕ → WebhookStatus → Option ℕ → ℕ → Bool
claimable now WebhookStatus.received started created = true
claimable now WebhookStatus.failed started created = true
claimable now WebhookStatus.processing (some t) created = ltb (t + stale_webhook_processing) now
claimable now WebhookStatus.processing none created = ltb (created + stale_webhook_processing) now
claimable now WebhookStatus.processed started created = false
claimable now WebhookStatus.ignored started created = false

abbrev pub can_claim : ℕ → WebhookEvent → Bool
can_claim now e = claimable now e.processing_status e.processing_started_at e.created_at

abbrev pub claimed_at : ℕ → WebhookEvent → WebhookEvent
claimed_at now e = record e {
  processing_status = WebhookStatus.processing;
  processing_started_at = some now;
}

unfoldable pub claim_webhook_event : String → Statement Bool
claim_webhook_event k now db =
    let where_clause : WebhookEvent → Bool = λ e. is_event k e && can_claim now e in
    (
      ok (ltb 0 (affected where_clause db.events)),
      record db { events = update_rows where_clause (claimed_at now) db.events },
    )

abbrev pub is_one_of : List OrderStatus → OrderStatus → Bool
is_one_of [] s = false
is_one_of (a ∷ l) s = same_status s a || is_one_of l s

abbrev pub is_settled : OrderStatus → Bool
is_settled OrderStatus.paid = true
is_settled OrderStatus.refunded = true
is_settled _ = false

abbrev pub is_paid : OrderStatus → Bool
is_paid OrderStatus.paid = true
is_paid _ = false

abbrev pub may_transition : List OrderStatus → Order → Bool
may_transition allowed o = is_one_of allowed o.status && not (is_settled o.status)

abbrev pub may_refund : Order → Bool
may_refund o = is_paid o.status

abbrev pub refunded_at : ℕ → Order → Order
refunded_at now o = record o { status = OrderStatus.refunded; updated_at = now }

abbrev pub moved_to : OrderStatus → Option String → Option ℕ → ℕ → Order → Order
moved_to s intent paid now o = record o {
  status = s;
  payment_intent_id = coalesce intent o.payment_intent_id;
  paid_at = coalesce paid o.paid_at;
  updated_at = now;
}

unfoldable pub ensure_order_webhook_effect :
    String → OrderStatus → ℕ → Bool → List Order → Result (Unit {0})
ensure_order_webhook_effect id target rows refund_only orders =
    if ltb 0 rows then ok tt else elim (find_row (is_order id) orders) [
      | none ↦ err order_not_found
      | some o ↦ if effect_satisfied o.status target refund_only then ok tt else err no_effect
    ]

-- the `switch` of the transaction, on the completion's order
unfoldable pub order_effect :
    Bool
    → Option String
    → Option OrderStatus
    → WebhookCompletion
    → ℕ
    → List Order
    → Result (Unit {0}) × List Order
order_effect true (some id) s c now orders =
    let where_clause : Order → Bool = λ o. is_order id o && may_refund o in
    let rows = affected where_clause orders in
    let orders' = update_rows where_clause (refunded_at now) orders in
    (ensure_order_webhook_effect id OrderStatus.refunded rows true orders', orders')
order_effect false (some id) (some s) c now orders =
    let where_clause : Order → Bool = λ o. is_order id o && may_transition c.allowed_from o in
    let rows = affected where_clause orders in
    let orders' = update_rows where_clause (moved_to s c.payment_intent_id c.paid_at now) orders in
    (ensure_order_webhook_effect id s rows false orders', orders')
order_effect _ _ _ c now orders = (ok tt, orders)

abbrev pub processed_for : Option String → ℕ → WebhookEvent → WebhookEvent
processed_for order now e = record e {
  processing_status = WebhookStatus.processed;
  processed_at = some now;
  order_id = coalesce order e.order_id;
}

abbrev pub in_processing : String → WebhookEvent → Bool
in_processing k e = is_event k e && is_processing e.processing_status

-- An error anywhere rolls the whole transaction back.
unfoldable pub finish_completion :
    WebhookCompletion → ℕ → Tables → Result (Unit {0}) × List Order → Result (Unit {0}) × Tables
finish_completion c now db (err e, orders) = (err e, db)
finish_completion c now db (ok _, orders) =
    if ltb 0 (affected (in_processing c.stripe_event_id) db.events)
    then (
      ok tt,
      record db {
        orders = orders;
        events =
            update_rows (in_processing c.stripe_event_id) (processed_for c.order_id now) db.events;
      },
    )
    else (err not_processing, db)

unfoldable pub complete_webhook_processing : WebhookCompletion → Statement (Unit {0})
unfolding finish_completion
complete_webhook_processing c now db =
    finish_completion c now db (order_effect c.refund_only c.order_id c.new_status c now db.orders)

unfoldable pub mark_webhook_processed : String → Option String → Statement (Unit {0})
mark_webhook_processed k order now db = (
  ok tt,
  record db { events = update_rows (in_processing k) (processed_for order now) db.events },
)

abbrev pub failed_event : WebhookEvent → WebhookEvent
failed_event e = record e { processing_status = WebhookStatus.failed }

unfoldable pub fail_webhook_event : String → Statement (Unit {0})
fail_webhook_event k now db = (
  if ltb 0 (affected (in_processing k) db.events) then ok tt else err not_processing,
  record db { events = update_rows (in_processing k) failed_event db.events },
)

abbrev pub ignored_at : ℕ → WebhookEvent → WebhookEvent
ignored_at now e = record e { processing_status = WebhookStatus.ignored; processed_at = some now }

unfoldable pub mark_webhook_ignored : String → Statement (Unit {0})
mark_webhook_ignored k now db =
    (ok tt, record db { events = update_rows (is_event k) (ignored_at now) db.events })

abbrev since : WebhookStatus → Option ℕ → ℕ → Bool
since WebhookStatus.processing (some t) now = leb (t + stale_webhook_processing) now
since _ _ now = false

unfoldable pub is_stale_webhook_processing : WebhookEvent → ℕ → Bool
is_stale_webhook_processing e now = since e.processing_status e.processing_started_at now
