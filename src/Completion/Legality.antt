-- ===== src/Completion/Legality.antt =====
-- The completions that events ask for move orders along their life, and set the time of a payment.
use stripe_payment_integrati.Prelude.{none, ℕ, Option, ◌≡◌, refl, true, is_some, Option}
use stripe_payment_integrati.Db.Webhooks.{WebhookCompletion, is_settled}
use stripe_payment_integrati.Completion.Shape.{
  Shape, unchanged, pays, starts, fails, expires, build_completion-Shape,
}
use stripe_payment_integrati.World.Yields.{Yields-weaken}
use stripe_payment_integrati.Prelude.{some, [], ◌∷◌, ℕ}
use stripe_payment_integrati.Domain.{OrderStatus}
use stripe_payment_integrati.Domain.Lifecycle.{
  start_payment, pay_now, pay_late, fail_now, fail_late, expire,
}
use stripe_payment_integrati.Db.Webhooks.{WebhookCompletion}
use stripe_payment_integrati.Db.Guarantees.{Legal, LegalTarget}
use stripe_payment_integrati.World.Yields.{Yields, OnOk}
use stripe_payment_integrati.Stripe.{Event, Sdk}
use stripe_payment_integrati.Completion.{build_completion, Option}

to_paid : LegalTarget (some OrderStatus.paid) (OrderStatus.pending ∷ OrderStatus.processing ∷ [])
to_paid OrderStatus.pending h _ = pay_now
to_paid OrderStatus.processing h _ = pay_late
to_paid _ h _ = cc

to_processing : LegalTarget (some OrderStatus.processing) (OrderStatus.pending ∷ [])
to_processing OrderStatus.pending h _ = start_payment
to_processing _ h _ = cc

to_failed :
    LegalTarget (some OrderStatus.failed) (OrderStatus.pending ∷ OrderStatus.processing ∷ [])
to_failed OrderStatus.pending h _ = fail_now
to_failed OrderStatus.processing h _ = fail_late
to_failed _ h _ = cc

to_expired : LegalTarget (some OrderStatus.expired) (OrderStatus.pending ∷ [])
to_expired OrderStatus.pending h _ = expire
to_expired _ h _ = cc

Shape-Legal : (c : WebhookCompletion) → Shape c → Legal c
Shape-Legal c unchanged = tt
Shape-Legal c pays = to_paid
Shape-Legal c starts = to_processing
Shape-Legal c fails = to_failed
Shape-Legal c expires = to_expired

-- A completion that settles its order has a time of payment.
abbrev pub StampedTarget : Option OrderStatus → Option ℕ → Type 0
StampedTarget none paid = Unit
StampedTarget (some s) paid = is_settled s ≡ true → is_some paid ≡ true

abbrev pub Stamped : WebhookCompletion → Type 0
Stamped c = StampedTarget c.new_status c.paid_at

pub Shape-Stamped : (c : WebhookCompletion) → Shape c → Stamped c
Shape-Stamped c unchanged = tt
Shape-Stamped c pays = λ _. refl
Shape-Stamped c starts = λ h. cc
Shape-Stamped c fails = λ h. cc
Shape-Stamped c expires = λ h. cc

-- Whatever the event, the tables and the schedule, a completion that is built moves an order only
-- from statuses that are one edge away from its target.
pub build_completion-Legal : (sdk : Sdk) (e : Event) → Yields (OnOk Legal) (build_completion sdk e)
build_completion-Legal sdk e = Yields-weaken Shape-Legal (build_completion-Shape sdk e)

pub build_completion-Stamped :
    (sdk : Sdk) (e : Event) → Yields (OnOk Stamped) (build_completion sdk e)
build_completion-Stamped sdk e = Yields-weaken Shape-Stamped (build_completion-Shape sdk e)
