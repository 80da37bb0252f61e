-- ===== src/Db/Orders.antt =====
-- backend/internal/db/orders.go, and helpers.go: the statements on orders
-- and their items.
use mathlib.Core.Option
use stripe_payment_integrati.Prelude.{
  ℕ, ◌+◌, String, ◌==◌, Bool, true, false, ◌&&◌, not, Option, none, some, List, [], ◌∷◌, ltb,
  if◌then◌else◌, is_some, take,
}
use stripe_payment_integrati.Domain.{OrderStatus}
use stripe_payment_integrati.Db.{
  Order, OrderItem, Metadata, ok, err, unique_violation, order_not_found, Statement,
}
use stripe_payment_integrati.Db.Table.{
  find_row, filter_rows, update_rows, affected, any_row, with_key,
}
use stripe_payment_integrati.Db.Webhooks.{is_order, may_transition, moved_to}

unfoldable pub null_if_empty : String → Option String
null_if_empty s = if s == "" then none else some s

-- A comparison with NULL selects no row.
abbrev pub holds : String → Option String → Bool
holds k none = false
holds k (some s) = s == k

abbrev pub has_session : String → Order → Bool
has_session k o = holds k o.session_id

abbrev pub has_payment_intent : String → Order → Bool
has_payment_intent k o = holds k o.payment_intent_id

abbrev pub has_idempotency_key : String → Order → Bool
has_idempotency_key k o = holds k o.idempotency_key

unfoldable pub get_order_by_id : String → Statement (Option Order)
get_order_by_id k now db = (ok (find_row (is_order k) db.orders), db)

unfoldable pub get_order_by_session_id : String → Statement (Option Order)
get_order_by_session_id k now db = (ok (find_row (has_session k) db.orders), db)

unfoldable pub get_order_by_payment_intent_id : String → Statement (Option Order)
get_order_by_payment_intent_id k now db = (ok (find_row (has_payment_intent k) db.orders), db)

unfoldable pub get_order_by_idempotency_key : String → Statement (Option Order)
get_order_by_idempotency_key k now db = (ok (find_row (has_idempotency_key k) db.orders), db)

unfoldable pub list_order_items : String → Statement (List OrderItem)
list_order_items k now db = (ok (filter_rows (with_key (λ i. i.order_id) k) db.items), db)

-- ORDER BY created_at DESC
insert_latest : Order → List Order → List Order
insert_latest o [] = o ∷ []
insert_latest o (p ∷ l) = if ltb o.created_at p.created_at then p ∷ insert_latest o l else o ∷ p ∷ l

unfoldable pub latest_first : List Order → List Order
unfolding insert_latest
latest_first [] = []
latest_first (o ∷ l) = insert_latest o (latest_first l)

unfoldable pub list_orders_by_customer_id : String → ℕ → Statement (List Order)
list_orders_by_customer_id k limit now db = (
  ok (
      take (if ltb 0 limit then limit else 20)
        (latest_first (filter_rows (λ o. holds k o.customer_id) db.orders))),
  db,
)

-- `lower` is Postgres's lower().
abbrev pub sent_by : (String → String) → String → Order → Bool
sent_by lower email o = holds (lower email) (Option.map lower o.customer_email)

unfoldable pub list_orders_by_customer_email :
    (String → String) → String → ℕ → Statement (List Order)
list_orders_by_customer_email lower email limit now db = (
  ok (
      take (if ltb 0 limit then limit else 20)
        (latest_first (filter_rows (sent_by lower email) db.orders))),
  db,
)

-- A JSON object keeps one value for each key.
unfoldable pub set_entry : String → String → Metadata → Metadata
set_entry k v [] = (k, v) ∷ []
set_entry k v ((j, w) ∷ m) = if j == k then (k, v) ∷ m else (j, w) ∷ set_entry k v m

unfoldable pub get_entry : String → Metadata → Option String
get_entry k [] = none
get_entry k ((j, w) ∷ m) = if j == k then some w else get_entry k m

unfoldable pub merge_request_body_hash : Metadata → String → Metadata
merge_request_body_hash m hash = set_entry "_request_body_hash" hash m

abbrev pub with_session : String → String → String → ℕ → Order → Order
with_session session url secret now o = record o {
  session_id = some session;
  checkout_url = null_if_empty url;
  client_secret = null_if_empty secret;
  updated_at = now;
}

-- stripe_checkout_session_id is UNIQUE
abbrev pub taken_by_other : String → String → Order → Bool
taken_by_other id session o = has_session session o && not (is_order id o)

unfoldable pub update_order_session : String → String → String → String → Statement (Unit {0})
update_order_session id session url secret now db =
    if any_row (taken_by_other id session) db.orders && ltb 0 (affected (is_order id) db.orders)
    then (err unique_violation, db)
    else (
      ok tt,
      record db {
        orders = update_rows (is_order id) (with_session session url secret now) db.orders;
      },
    )

abbrev pub with_token_hash : String → ℕ → Order → Order
with_token_hash hash now o = record o { access_token_hash = some hash; updated_at = now }

unfoldable pub update_order_access_token_hash : String → String → Statement (Unit {0})
update_order_access_token_hash id hash now db = (
  if ltb 0 (affected (is_order id) db.orders) then ok tt else err order_not_found,
  record db { orders = update_rows (is_order id) (with_token_hash hash now) db.orders },
)

abbrev pub is_canceled : OrderStatus → Bool
is_canceled OrderStatus.canceled = true
is_canceled _ = false

abbrev pub is_pending : OrderStatus → Bool
is_pending OrderStatus.pending = true
is_pending _ = false

abbrev pub without_key : ℕ → Order → Order
without_key now o = record o { idempotency_key = none; updated_at = now }

unfoldable pub clear_order_idempotency_key : String → Statement (Unit {0})
clear_order_idempotency_key id now db = (
  ok tt,
  record db {
    orders = update_rows (λ o. is_order id o && is_canceled o.status) (without_key now) db.orders;
  },
)

abbrev pub canceled_for : String → ℕ → Order → Order
canceled_for reason now o = record o {
  status = OrderStatus.canceled;
  idempotency_key = none;
  metadata = set_entry "cancel_reason" reason o.metadata;
  updated_at = now;
}

unfoldable pub cancel_order : String → String → Statement (Unit {0})
cancel_order id reason now db =
    (ok tt, record db { orders = update_rows (is_order id) (canceled_for reason now) db.orders })

unfoldable pub update_order_status :
    String → OrderStatus → Option String → Option ℕ → Statement (Unit {0})
update_order_status id s intent paid now db =
    (ok tt, record db { orders = update_rows (is_order id) (moved_to s intent paid now) db.orders })

unfoldable pub update_order_status_if_allowed :
    String → OrderStatus → Option String → Option ℕ → List OrderStatus → Statement Bool
update_order_status_if_allowed id s intent paid allowed now db =
    let where_clause : Order → Bool = λ o. is_order id o && may_transition allowed o in
    (
      ok (ltb 0 (affected where_clause db.orders)),
      record db { orders = update_rows where_clause (moved_to s intent paid now) db.orders },
    )

abbrev pub is_stale_pending : ℕ → ℕ → Order → Bool
is_stale_pending older_than now o =
    is_pending o.status && not (is_some o.session_id) && ltb (o.created_at + older_than) now

abbrev pub stale_canceled : ℕ → Order → Order
stale_canceled now o = record o {
  status = OrderStatus.canceled;
  metadata = set_entry "cancel_reason" "stale_checkout" o.metadata;
  updated_at = now;
}

unfoldable pub cancel_stale_pending_orders : ℕ → Statement ℕ
cancel_stale_pending_orders older_than now db = (
  ok (affected (is_stale_pending older_than now) db.orders),
  record db {
    orders = update_rows (is_stale_pending older_than now) (stale_canceled now) db.orders;
  },
)
