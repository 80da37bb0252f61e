-- ===== src/Db/Guarantees.antt =====
-- Which statements of the store move the orders along, whatever the tables hold.
use stripe_payment_integrati.Prelude.{
  ℕ, String, ◌≡◌, refl, ◌&&◌, Bool, true, false, Option, none, some, List, arith, Bool-cases, inl,
  inr, ltb, sym,
}
use stripe_payment_integrati.Domain.{OrderStatus}
use stripe_payment_integrati.Domain.Lifecycle.{
  ◌⟶◌, ◌⟶*◌, edge, refund, IsSettled, settled_paid, settled_refunded,
}
use stripe_payment_integrati.Db.{Tables, Order, Result, ok, err, WebhookEvent}
use stripe_payment_integrati.Db.Table.{affected, any_row}
use stripe_payment_integrati.Db.Webhooks.{
  is_order, is_one_of, is_settled, is_paid, may_transition, may_refund, refunded_at, moved_to,
  WebhookCompletion, order_effect, finish_completion, complete_webhook_processing, in_processing,
  claim_webhook_event, fail_webhook_event, mark_webhook_ignored, insert_webhook_event, same_event,
}
use stripe_payment_integrati.Db.Progress.{
  RowMove, Progress, Progress-preorder, Progress-same, Progress-update_rows,
}
use stripe_payment_integrati.World.Keeps.{Obeys}

-- From every status that the update allows, its target is one edge away.
abbrev pub LegalTarget : Option OrderStatus → List OrderStatus → Type 0
LegalTarget none allowed = Unit
LegalTarget (some t) allowed =
    (s : OrderStatus) → is_one_of allowed s ≡ true → is_settled s ≡ false → s ⟶ t

abbrev pub Legal : WebhookCompletion → Type 0
Legal c = LegalTarget c.new_status c.allowed_from

not_settled : {s : OrderStatus} → is_settled s ≡ false → IsSettled s → ⊥
not_settled h settled_paid = cc
not_settled h settled_refunded = cc

moved_to-RowMove :
    (o : Order) (t : OrderStatus) (intent : Option String) (paid : Option ℕ) (now : ℕ)
    → o.status ⟶ t
    → is_settled o.status ≡ false
    → RowMove o (moved_to t intent paid now o)
moved_to-RowMove o t intent paid now e active = record {
  status_moves = edge e;
  same_total = refl;
  same_currency = refl;
  payment_kept = λ h. absurd (not_settled active h);
}

refunded_at-RowMove : (o : Order) (now : ℕ) → may_refund o ≡ true → RowMove o (refunded_at now o)
refunded_at-RowMove o now h = record {
  status_moves = paid_refunds o.status h;
  same_total = refl;
  same_currency = refl;
  payment_kept = λ _. (refl, refl);
}
  where
    paid_refunds : (s : OrderStatus) → is_paid s ≡ true → s ⟶* OrderStatus.refunded
    paid_refunds OrderStatus.paid h = edge refund
    paid_refunds _ h = cc

module _ (c : WebhookCompletion) (now : ℕ) (db db' : Tables) where
  order_effect-Progress :
      (refund_only : Bool) (id : Option String) (s : Option OrderStatus)
      → LegalTarget s c.allowed_from
      → db'.orders ≡ (order_effect refund_only id s c now db.orders).1
      → Progress db db'
  unfolding order_effect
  order_effect-Progress true (some id) s legal e =
      Progress-update_rows (λ o. is_order id o && may_refund o) (refunded_at now) (λ o. refl)
        (λ o h. refunded_at-RowMove o now (ground arith)) db db' e
  order_effect-Progress false (some id) (some s) legal e =
      Progress-update_rows (λ o. is_order id o && may_transition c.allowed_from o)
        (moved_to s c.payment_intent_id c.paid_at now) (λ o. refl)
        (λ o h.
          moved_to-RowMove o s c.payment_intent_id c.paid_at now
            (legal o.status (ground arith) (ground arith)) (ground arith))
        db db' e
  order_effect-Progress false (some id) none legal e = Progress-same db db' (sym e)
  order_effect-Progress true none s legal e = Progress-same db db' (sym e)
  order_effect-Progress false none s legal e = Progress-same db db' (sym e)

finish_completion-Progress :
    (c : WebhookCompletion) (now : ℕ) (db : Tables) (x : Result (Unit {0}) × List Order)
    → ((db' : Tables) → db'.orders ≡ x.1 → Progress db db')
    → Progress db (finish_completion c now db x).1
unfolding finish_completion
finish_completion-Progress c now db (err e, orders) step = Progress-preorder.refl_at db
finish_completion-Progress c now db (ok _, orders) step =
    elim (Bool-cases (ltb 0 (affected (in_processing c.stripe_event_id) db.events))) [
      | inl e ↦ rw e (step _ refl)
      | inr e ↦ rw e (Progress-preorder.refl_at db)
    ]

-- The transaction of a legal completion moves every order along.
pub complete-Obeys :
    (c : WebhookCompletion) → Legal c → Obeys Progress (complete_webhook_processing c)
unfolding complete_webhook_processing
complete-Obeys c legal now db =
    finish_completion-Progress c now db
      (order_effect c.refund_only c.order_id c.new_status c now db.orders)
      (λ db' e. order_effect-Progress c now db db' c.refund_only c.order_id c.new_status legal e)

pub claim-Obeys : (k : String) → Obeys Progress (claim_webhook_event k)
unfolding claim_webhook_event
claim-Obeys k now db = Progress-same db _ refl

pub fail-Obeys : (k : String) → Obeys Progress (fail_webhook_event k)
unfolding fail_webhook_event
fail-Obeys k now db = Progress-same db _ refl

pub ignore-Obeys : (k : String) → Obeys Progress (mark_webhook_ignored k)
unfolding mark_webhook_ignored
ignore-Obeys k now db = Progress-same db _ refl

pub insert_event-Obeys : (e : WebhookEvent) → Obeys Progress (insert_webhook_event e)
unfolding insert_webhook_event
insert_event-Obeys e now db = elim (Bool-cases (any_row (same_event e) db.events)) [
  | inl h ↦ rw h (Progress-preorder.refl_at db)
  | inr h ↦ rw h (Progress-same db _ refl)
]
