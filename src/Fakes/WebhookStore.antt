-- ===== src/Fakes/WebhookStore.antt =====
-- backend/internal/testutil/fake_webhook_store.go: the events are a map by Stripe's identifier, the orders
-- a map by session in the order in which a loop visits it. A pointer into a map is the row that the
-- map shows.
use mathlib.Core.Option
use stripe_payment_integrati.Prelude.{
  ℕ, String, ◌==◌, Bool, true, false, Option, none, some, List, [], ◌∷◌, ◌++◌, if◌then◌else◌,
}
use stripe_payment_integrati.Prelude.Text.{concat}
use stripe_payment_integrati.Domain.{OrderStatus, WebhookStatus}
use stripe_payment_integrati.Db.{WebhookEvent, Order, Result, ok, err, Error}
use stripe_payment_integrati.Db.Webhooks.{WebhookCompletion}
use stripe_payment_integrati.Db.Orders.{has_payment_intent}

-- the words of domain/status.go
unfoldable pub status_word : OrderStatus → String
status_word OrderStatus.pending = "pending"
status_word OrderStatus.processing = "processing"
status_word OrderStatus.paid = "paid"
status_word OrderStatus.failed = "failed"
status_word OrderStatus.expired = "expired"
status_word OrderStatus.canceled = "canceled"
status_word OrderStatus.refunded = "refunded"

pub record FakeWebhookStore : Type 0 where
  pub events : String → Option WebhookEvent
  pub orders : List (String × Order)
  pub ignored : List String
  pub claimed : List String
  pub status_update : List String
  pub claim_ok : Bool
  pub update_err : Option Error
  pub get_webhook_event_err : Option Error
  pub complete_err : Option Error

abbrev pub new_fake_webhook_store : FakeWebhookStore
new_fake_webhook_store = record {
  events = λ k. none;
  orders = [];
  ignored = [];
  claimed = [];
  status_update = [];
  claim_ok = true;
  update_err = none;
  get_webhook_event_err = none;
  complete_err = none;
}

abbrev pub Method : Type 0 → Type 0
Method A = FakeWebhookStore → Result A × FakeWebhookStore

abbrev pub put :
    String → WebhookEvent → (String → Option WebhookEvent) → String → Option WebhookEvent
put k e events j = if j == k then some e else events j

-- an assignment through the pointer under a key, where there is one
abbrev pub assign :
    String
    → (WebhookEvent → WebhookEvent)
    → (String → Option WebhookEvent)
    → String
    → Option WebhookEvent
assign k g events j = if j == k then Option.map g (events j) else events j

abbrev unless {ℓ} :
    {A : Type ℓ}
    → Option Error
    → FakeWebhookStore
    → Result A × FakeWebhookStore
    → Result A × FakeWebhookStore
unless none f rest = rest
unless (some e) f rest = (err e, f)

unfoldable pub get_webhook_event : String → Method (Option WebhookEvent)
get_webhook_event k f = unless f.get_webhook_event_err f (ok (f.events k), f)

unfoldable pub insert_webhook_event : WebhookEvent → Method (Unit {0})
insert_webhook_event e f = (ok tt, record f { events = put e.stripe_event_id e f.events })

abbrev pub ignored_event : WebhookEvent → WebhookEvent
ignored_event e = record e { processing_status = WebhookStatus.ignored }

unfoldable pub mark_webhook_ignored : String → Method (Unit {0})
mark_webhook_ignored k f =
    (ok tt, record f { ignored = f.ignored ++ k ∷ []; events = assign k ignored_event f.events })

abbrev pub claimed_event : ℕ → WebhookEvent → WebhookEvent
claimed_event now e = record e {
  processing_status = WebhookStatus.processing;
  processing_started_at = some now;
}

-- `now` is the time of the call.
unfoldable pub claim_webhook_event : ℕ → String → Method Bool
claim_webhook_event now k f =
    if f.claim_ok
    then (
      ok true,
      record f { claimed = f.claimed ++ k ∷ []; events = assign k (claimed_event now) f.events },
    )
    else (ok false, record f { claimed = f.claimed ++ k ∷ [] })

unfoldable pub logged_updates : Bool → Option String → Option OrderStatus → List String
unfolding status_word
logged_updates true (some id) s = concat id ":refunded" ∷ []
logged_updates false (some id) (some s) = concat id (concat ":" (status_word s)) ∷ []
logged_updates _ _ _ = []

abbrev pub completed_event : Option String → WebhookEvent → WebhookEvent
completed_event order e = record e { processing_status = WebhookStatus.processed; order_id = order }

unfoldable pub complete_webhook_processing : WebhookCompletion → Method (Unit {0})
unfolding logged_updates
complete_webhook_processing c f = unless f.complete_err f (
    unless f.update_err f (
      ok tt,
      record f {
        status_update = f.status_update ++ logged_updates c.refund_only c.order_id c.new_status;
        events = assign c.stripe_event_id (completed_event c.order_id) f.events;
      },
    ))

abbrev pub failed_event : WebhookEvent → WebhookEvent
failed_event e = record e { processing_status = WebhookStatus.failed }

unfoldable pub fail_webhook_event : String → Method (Unit {0})
fail_webhook_event k f = (ok tt, record f { events = assign k failed_event f.events })

under : String → List (String × Order) → Option Order
under k [] = none
under k ((j, o) ∷ l) = if j == k then some o else under k l

unfoldable pub get_order_by_session_id : String → Method (Option Order)
unfolding under
get_order_by_session_id k f = (ok (under k f.orders), f)

paying : String → List (String × Order) → Option Order
paying k [] = none
paying k ((j, o) ∷ l) = if has_payment_intent k o then some o else paying k l

unfoldable pub get_order_by_payment_intent_id : String → Method (Option Order)
unfolding paying
get_order_by_payment_intent_id k f = (ok (paying k f.orders), f)
