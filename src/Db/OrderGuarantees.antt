-- ===== src/Db/OrderGuarantees.antt =====
-- The statements on orders that move them along: all but the two that set a status outright.
use stripe_payment_integrati.Prelude.{
  ℕ, String, ◌==◌, ◌≡◌, refl, ◌&&◌, Bool, true, false, none, some, List, [], ◌∷◌, arith, Bool-cases,
  inl, inr, ltb, eq_iff, subst,
}
use stripe_payment_integrati.Domain.{OrderStatus}
use stripe_payment_integrati.Domain.Lifecycle.{◌⟶*◌, stay, edge, cancel}
use stripe_payment_integrati.Db.{Tables, Order, OrderItem, Result, ok, err}
use stripe_payment_integrati.Db.Table.{find_row, affected, any_row, any_row-none}
use stripe_payment_integrati.Db.Webhooks.{is_order}
use stripe_payment_integrati.Db.NewOrders.{
  CreateOrderParams, CreateOrderItemParams, new_order, clashes, insert_order, insert_items,
  commit_order, create_order_with_items,
}
use stripe_payment_integrati.Db.Orders.{
  with_session, taken_by_other, update_order_session, with_token_hash,
  update_order_access_token_hash, is_canceled, is_pending, without_key, clear_order_idempotency_key,
  is_stale_pending, stale_canceled, cancel_stale_pending_orders, get_order_by_session_id,
  get_order_by_payment_intent_id, get_order_by_idempotency_key,
}
use stripe_payment_integrati.Db.Progress.{
  RowMove, Along, Along-refl, born, Progress, Progress-preorder, Progress-update_rows,
}
use stripe_payment_integrati.World.Keeps.{Obeys}

-- A change of columns other than the status and the payment.
same_status-RowMove :
    (o o' : Order)
    → o.status ≡ o'.status
    → o.total_amount_cents ≡ o'.total_amount_cents
    → o.currency ≡ o'.currency
    → o.paid_at ≡ o'.paid_at
    → o.payment_intent_id ≡ o'.payment_intent_id
    → RowMove o o'
same_status-RowMove o o' s t c p i = record {
  status_moves = subst (λ x. o.status ⟶* x) s stay;
  same_total = t;
  same_currency = c;
  payment_kept = λ _. (p, i);
}

stale_canceled-RowMove :
    (o : Order) (now : ℕ) → is_pending o.status ≡ true → RowMove o (stale_canceled now o)
stale_canceled-RowMove o now h = record {
  status_moves = pending_cancels o.status h;
  same_total = refl;
  same_currency = refl;
  payment_kept = λ _. (refl, refl);
}
  where
    pending_cancels : (s : OrderStatus) → is_pending s ≡ true → s ⟶* OrderStatus.canceled
    pending_cancels OrderStatus.pending h = edge cancel
    pending_cancels _ h = cc

pub session-Obeys :
    (id session url secret : String) → Obeys Progress (update_order_session id session url secret)
unfolding update_order_session
session-Obeys id session url secret now db =
    elim (Bool-cases
      (any_row (taken_by_other id session) db.orders && ltb 0 (affected (is_order id) db.orders))) [
        | inl h ↦ rw h (Progress-preorder.refl_at db)
        | inr h ↦ rw h (
            Progress-update_rows (is_order id) (with_session session url secret now) (λ o. refl)
              (λ o _. same_status-RowMove o _ refl refl refl refl refl) db _ refl)
      ]

pub token_hash-Obeys : (id hash : String) → Obeys Progress (update_order_access_token_hash id hash)
unfolding update_order_access_token_hash
token_hash-Obeys id hash now db =
    Progress-update_rows (is_order id) (with_token_hash hash now) (λ o. refl)
      (λ o _. same_status-RowMove o _ refl refl refl refl refl) db _ refl

pub clear_key-Obeys : (id : String) → Obeys Progress (clear_order_idempotency_key id)
unfolding clear_order_idempotency_key
clear_key-Obeys id now db =
    Progress-update_rows (λ o. is_order id o && is_canceled o.status) (without_key now) (λ o. refl)
      (λ o _. same_status-RowMove o _ refl refl refl refl refl) db _ refl

pub cancel_stale-Obeys : (older_than : ℕ) → Obeys Progress (cancel_stale_pending_orders older_than)
unfolding cancel_stale_pending_orders
cancel_stale-Obeys older_than now db =
    Progress-update_rows (is_stale_pending older_than now) (stale_canceled now) (λ o. refl)
      (λ o h. stale_canceled-RowMove o now (ground arith)) db _ refl

-- A row that clashes with no other is new under its key.
any_row-weaken :
    (p q : Order → Bool) (t : List Order)
    → ((o : Order) → p o ≡ true → q o ≡ true)
    → any_row q t ≡ false
    → any_row p t ≡ false
unfolding any_row
any_row-weaken p q [] h e = refl
any_row-weaken p q (o ∷ t) h e = ground (arith, h o, any_row-weaken p q t h)

module _ (p : CreateOrderParams) (now : ℕ) (orders : List Order)
    (free : any_row (clashes p) orders ≡ false) where
  fresh_id : find_row (is_order p.id) orders ≡ none
  fresh_id =
      any_row-none (is_order p.id) orders
        (any_row-weaken (is_order p.id) (clashes p) orders (λ o h. ground arith) free)

  new_order-Along :
      (k : String)
      → Along (find_row (is_order k) orders) (find_row (is_order k) (new_order p now ∷ orders))
  unfolding find_row
  new_order-Along k = elim (Bool-cases (p.id == k)) [
    | inl e ↦ rw e (
        subst (λ j. Along (find_row (is_order j) orders) (some (new_order p now)))
          ((eq_iff p.id k).0 e) (rw fresh_id (born stay)))
    | inr e ↦ rw e (Along-refl (find_row (is_order k) orders))
  ]

insert_order-Along :
    (p : CreateOrderParams) (now : ℕ) (orders orders' : List Order)
    → insert_order p now orders ≡ ok orders'
    → (k : String) → Along (find_row (is_order k) orders) (find_row (is_order k) orders')
unfolding insert_order
insert_order-Along p now orders orders' h k = elim (Bool-cases (any_row (clashes p) orders)) [
  | inl e ↦ absurd (ground arith)
  | inr e ↦
      let same : orders' ≡ new_order p now ∷ orders = ground arith in
      rw same (new_order-Along p now orders e k)
]

commit_order-Progress :
    (db : Tables) (orders : Result (List Order)) (items : Result (List OrderItem))
    → ((orders' : List Order)
        → orders ≡ ok orders'
        → (k : String) → Along (find_row (is_order k) db.orders) (find_row (is_order k) orders'))
    → Progress db (commit_order db orders items).1
unfolding commit_order
commit_order-Progress db (err e) items h = Progress-preorder.refl_at db
commit_order-Progress db (ok orders) (err e) h = Progress-preorder.refl_at db
commit_order-Progress db (ok orders) (ok items) h = record { at = h orders refl }

pub create_order-Obeys :
    (p : CreateOrderParams) (items : List CreateOrderItemParams)
    → Obeys Progress (create_order_with_items p items)
unfolding create_order_with_items
create_order-Obeys p items now db =
    commit_order-Progress db (insert_order p now db.orders) (insert_items items db.items)
      (insert_order-Along p now db.orders)

pub by_session-Obeys : (k : String) → Obeys Progress (get_order_by_session_id k)
unfolding get_order_by_session_id
by_session-Obeys k now db = Progress-preorder.refl_at db

pub by_payment_intent-Obeys : (k : String) → Obeys Progress (get_order_by_payment_intent_id k)
unfolding get_order_by_payment_intent_id
by_payment_intent-Obeys k now db = Progress-preorder.refl_at db

pub by_idempotency_key-Obeys : (k : String) → Obeys Progress (get_order_by_idempotency_key k)
unfolding get_order_by_idempotency_key
by_idempotency_key-Obeys k now db = Progress-preorder.refl_at db
