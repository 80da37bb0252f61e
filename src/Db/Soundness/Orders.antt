-- ===== src/Db/Soundness/Orders.antt =====
-- Every statement on orders keeps a sound store sound.
use stripe_payment_integrati.Db.Orders.{
  update_order_session, canceled_for, update_order_access_token_hash, taken_by_other,
  clear_order_idempotency_key, with_session, cancel_order, with_token_hash, is_canceled,
  without_key,
}
use stripe_payment_integrati.Db.Soundness.Rows.{orders-updated, find_row-fresh}
use stripe_payment_integrati.Db.NewOrders.{
  insert_order, commit_order, CreateOrderParams, new_order, clashes, create_order_with_items,
  CreateOrderItemParams, insert_items,
}
use stripe_payment_integrati.Db.Webhooks.{is_order}
use stripe_payment_integrati.Prelude.{
  ℕ, String, ◌≡◌, refl, Bool, true, false, ◌&&◌, List, ◌∷◌, arith, ltb, Bool-cases, inl, inr,
}
use stripe_payment_integrati.Prelude.Int.{pos, ltb_ℤ}
use stripe_payment_integrati.Domain.{valid_ui_mode}
use stripe_payment_integrati.Db.{Tables, Order, OrderItem, Result, ok, err}
use stripe_payment_integrati.Db.Table.{any_row, affected, update_rows}
use stripe_payment_integrati.Rules.{OrderRules}
use stripe_payment_integrati.World.Keeps.{Obeys}
use stripe_payment_integrati.Db.Soundness.{Sound, StaysSound, StaysSound-preorder, OrderOk}

inserted-Sound :
    (p : CreateOrderParams) (items : Result (List OrderItem)) (now : ℕ) (db : Tables)
    → valid_ui_mode p.ui_mode ≡ true
    → ltb_ℤ (pos 0) p.total_amount_cents ≡ true
    → any_row (clashes p) db.orders ≡ false
    → Sound db
    → Sound (commit_order db (ok (new_order p now ∷ db.orders)) items).1
unfolding commit_order
inserted-Sound p (err e) now db mode positive fresh s = s
inserted-Sound p (ok l) now db mode positive fresh s = record {
  orders_ok = (
    record { positive = positive; known_mode = mode; unowned = refl; stamped = λ h. cc },
    s.orders_ok,
  );
  orders_keyed = (
    find_row-fresh (is_order p.id) (clashes p) db.orders (λ o c. ground arith) fresh,
    s.orders_keyed,
  );
  events_keyed = s.events_keyed;
  customers_keyed = s.customers_keyed;
  sessions_keyed = s.sessions_keyed;
}

create_order-Sound :
    (p : CreateOrderParams) (items : List CreateOrderItemParams)
    → Obeys StaysSound (create_order_with_items p items)
unfolding create_order_with_items insert_order commit_order
create_order-Sound p items now db =
    elim (Bool-cases (valid_ui_mode p.ui_mode && ltb_ℤ (pos 0) p.total_amount_cents)) [
      | inl h ↦ elim (Bool-cases (any_row (clashes p) db.orders)) [
        | inl c ↦ rw (h, c) (λ s. s)
        | inr c ↦
            rw (h, c)
              (inserted-Sound p (insert_items items db.items) now db (ground arith) (ground arith)
                c)
      ]
      | inr h ↦ rw h (λ s. s)
    ]

-- An UPDATE of orders that leaves their ids alone and the rows in order.
updates-orders :
    (q : Order → Bool) (f : Order → Order) (db : Tables)
    → ((o : Order) → (f o).id ≡ o.id)
    → ((o : Order) → OrderOk o → OrderOk (f o))
    → StaysSound db (record db { orders = update_rows q f db.orders })
updates-orders q f db same keeps = λ s. orders-updated db s q f same (λ o h. keeps o)

set_session-Sound :
    (id session url secret : String) → Obeys StaysSound (update_order_session id session url secret)
unfolding update_order_session
set_session-Sound id session url secret now db =
    elim (Bool-cases
      (any_row (taken_by_other id session) db.orders && ltb 0 (affected (is_order id) db.orders))) [
        | inl h ↦ rw h (λ s. s)
        | inr h ↦ rw h (
            updates-orders (is_order id) (with_session session url secret now) db (λ o. refl)
              (λ o fine. fine))
      ]

-- A status that is not settled, or stays as it is, needs no other time of payment.
canceled-OrderOk :
    (reason : String) (now : ℕ) (o : Order) → OrderOk o → OrderOk (canceled_for reason now o)
canceled-OrderOk reason now o fine = record {
  positive = fine.positive;
  known_mode = fine.known_mode;
  unowned = fine.unowned;
  stamped = λ h. cc;
}

pub order_rules : OrderRules StaysSound
unfolding update_order_access_token_hash clear_order_idempotency_key cancel_order
order_rules = record {
  order = StaysSound-preorder;
  create_order = create_order-Sound;
  set_session = set_session-Sound;
  set_token = λ id hash now db.
      updates-orders (is_order id) (with_token_hash hash now) db (λ o. refl) (λ o fine. fine);
  clear_key = λ id now db.
      updates-orders (λ o. is_order id o && is_canceled o.status) (without_key now) db (λ o. refl)
        (λ o fine. fine);
  cancel = λ id reason now db.
      updates-orders (is_order id) (canceled_for reason now) db (λ o. refl)
        (canceled-OrderOk reason now);
}
