-- ===== src/Db/NewOrders.antt =====
-- backend/internal/db/orders.go, CreateOrderWithItems, under the constraints of the first migration.
use stripe_payment_integrati.Prelude.{
  ℕ, String, ◌==◌, Bool, false, ◌&&◌, ◌||◌, Option, none, some, List, [], ◌∷◌, if◌then◌else◌,
}
use stripe_payment_integrati.Prelude.Int.{ℤ, pos, ltb_ℤ}
use stripe_payment_integrati.Domain.{OrderStatus, UiMode, valid_ui_mode}
use stripe_payment_integrati.Db.{
  Tables, Order, OrderItem, Metadata, Result, ok, err, unique_violation, check_violation, Statement,
}
use stripe_payment_integrati.Db.Table.{any_row, with_key}
use stripe_payment_integrati.Db.Webhooks.{is_order}
use stripe_payment_integrati.Db.Orders.{null_if_empty, merge_request_body_hash, has_idempotency_key}

pub record CreateOrderParams : Type 0 where
  pub id : String
  pub order_number : String
  pub idempotency_key : Option String
  pub total_amount_cents : ℤ
  pub currency : String
  pub customer_email : Option String
  pub ui_mode : UiMode
  pub success_url : Option String
  pub cancel_url : Option String
  pub return_url : Option String
  pub metadata : Metadata
  pub request_body_hash : String
  pub access_token_hash : String

pub record CreateOrderItemParams : Type 0 where
  pub id : String
  pub order_id : String
  pub product_id : String
  pub product_name : String
  pub quantity : ℤ
  pub unit_amount_cents : ℤ
  pub line_total_cents : ℤ

-- the columns that the INSERT leaves out are NULL or take their defaults
abbrev pub new_order : CreateOrderParams → ℕ → Order
new_order p now = record {
  id = p.id;
  order_number = p.order_number;
  idempotency_key = p.idempotency_key;
  status = OrderStatus.pending;
  total_amount_cents = p.total_amount_cents;
  currency = p.currency;
  customer_id = none;
  customer_email = p.customer_email;
  session_id = none;
  payment_intent_id = none;
  checkout_url = none;
  client_secret = none;
  ui_mode = p.ui_mode;
  success_url = p.success_url;
  cancel_url = p.cancel_url;
  return_url = p.return_url;
  metadata = merge_request_body_hash p.metadata p.request_body_hash;
  paid_at = none;
  created_at = now;
  updated_at = now;
  access_token_hash = null_if_empty p.access_token_hash;
}

abbrev same_key : Option String → Order → Bool
same_key none o = false
same_key (some k) o = has_idempotency_key k o

-- The primary key and the UNIQUE columns order_number and idempotency_key.
abbrev pub clashes : CreateOrderParams → Order → Bool
clashes p o = is_order p.id o || o.order_number == p.order_number || same_key p.idempotency_key o

unfoldable pub insert_order : CreateOrderParams → ℕ → List Order → Result (List Order)
insert_order p now orders =
    if valid_ui_mode p.ui_mode && ltb_ℤ (pos 0) p.total_amount_cents
    then if any_row (clashes p) orders then err unique_violation else ok (new_order p now ∷ orders)
    else err check_violation

abbrev pub new_item : CreateOrderItemParams → OrderItem
new_item p = record {
  id = p.id;
  order_id = p.order_id;
  product_id = some p.product_id;
  product_name = p.product_name;
  quantity = p.quantity;
  unit_amount_cents = p.unit_amount_cents;
  line_total_cents = p.line_total_cents;
}

abbrev item_checks : CreateOrderItemParams → Bool
item_checks p =
    ltb_ℤ (pos 0) p.quantity
    && ltb_ℤ (pos 0) p.unit_amount_cents
    && ltb_ℤ (pos 0) p.line_total_cents

unfoldable pub insert_items : List CreateOrderItemParams → List OrderItem → Result (List OrderItem)
insert_items [] items = ok items
insert_items (p ∷ ps) items =
    let rest = insert_items ps (new_item p ∷ items) in
    if item_checks p
    then if any_row (with_key (λ i. i.id) p.id) items then err unique_violation else rest
    else err check_violation

-- Both inserts, or neither.
unfoldable pub commit_order :
    Tables → Result (List Order) → Result (List OrderItem) → Result (Unit {0}) × Tables
commit_order db (err e) items = (err e, db)
commit_order db (ok orders) (err e) = (err e, db)
commit_order db (ok orders) (ok items) = (ok tt, record db { orders = orders; items = items })

unfoldable pub create_order_with_items :
    CreateOrderParams → List CreateOrderItemParams → Statement (Unit {0})
unfolding commit_order
create_order_with_items p ps now db =
    commit_order db (insert_order p now db.orders) (insert_items ps db.items)
