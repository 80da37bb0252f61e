-- ===== src/Checkout/Access/Keeping.antt =====
-- Reading orders keeps every relation between tables.
use stripe_payment_integrati.Db.Orders.{
  get_order_by_id, get_order_by_session_id, list_orders_by_customer_id,
}
use stripe_payment_integrati.Checkout.Access.{
  guarded, get_order, get_order_by_session, list_orders_for_user, valid_order_id,
}
use stripe_payment_integrati.Prelude.{◌≡◌, ℕ, String, Option, refl, starts_with}
use stripe_payment_integrati.Db.{Tables, Order, Statement}
use stripe_payment_integrati.Rules.{OrderRules}
use stripe_payment_integrati.World.{pure, try_bind}
use stripe_payment_integrati.World.Keeps.{Keeps, Keeps-pure, Keeps-if, Keeps-try_bind, Keeps-read}
use stripe_payment_integrati.World.Scan.{scan_order, scan-Keeps}
use stripe_payment_integrati.Checkout.{Host}

module _ {R : Tables → Tables → Type 0} (rules : OrderRules R) where
  guarded-Keeps :
      (host : Host) (token : String) (query : Statement (Option Order))
      → ((t : ℕ) (db : Tables) → (query t db).1 ≡ db)
      → Keeps R (try_bind (scan_order query) (λ found. pure (guarded host token found)))
  guarded-Keeps host token query reads =
      Keeps-try_bind rules.order (scan_order query) _ (scan-Keeps rules.order query reads)
        (λ found. Keeps-pure rules.order (guarded host token found))

  pub get_order-Keeps : (host : Host) (id token : String) → Keeps R (get_order host id token)
  unfolding get_order get_order_by_id
  get_order-Keeps host id token =
      Keeps-if rules.order (valid_order_id host id) _ _
        (guarded-Keeps host token (get_order_by_id id) (λ t db. refl)) (Keeps-pure rules.order _)

  pub get_order_by_session-Keeps :
      (host : Host) (session token : String) → Keeps R (get_order_by_session host session token)
  unfolding get_order_by_session get_order_by_session_id
  get_order_by_session-Keeps host session token =
      Keeps-if rules.order (starts_with session "cs_") _ _
        (guarded-Keeps host token (get_order_by_session_id session) (λ t db. refl))
        (Keeps-pure rules.order _)

  pub list-Keeps : (customer : String) → Keeps R (list_orders_for_user customer)
  unfolding list_orders_for_user list_orders_by_customer_id
  list-Keeps customer =
      Keeps-read rules.order (list_orders_by_customer_id customer 20) (λ t db. refl)
