-- ===== src/Checkout/Access/Reading.antt =====
-- backend/internal/service/order.go, GetOrder: a request with the right token reads the order.
use stripe_payment_integrati.Db.Webhooks.{is_order}
use stripe_payment_integrati.Db.Table.{find_row, filter_rows, with_key}
use stripe_payment_integrati.Db.{Order}
use stripe_payment_integrati.Checkout.{Host}
use stripe_payment_integrati.Db.Orders.{get_order_by_id, list_order_items}
use stripe_payment_integrati.World.{call, World, quietly}
use stripe_payment_integrati.Checkout.Access.{
  get_order, guarded, reveal, verify_order_access, verify_order_access_token, valid_order_id, ok,
}
use stripe_payment_integrati.World.Scan.{scan_order, with_items}
use stripe_payment_integrati.Prelude.{String, ◌==◌, ◌≡◌, refl, true, false, some, eq_refl}

pub get_order-reads :
    (host : Host) (id token : String) (w : World) (o : Order)
    → valid_order_id host id ≡ true
    → find_row (is_order id) w.tables.orders ≡ some o
    → (token == "") ≡ false
    → (host.digest token == "") ≡ false
    → o.access_token_hash ≡ some (host.digest token)
    → get_order host id token (quietly w)
      ≡ (ok (some (o, filter_rows (with_key (λ i. i.order_id) o.id) w.tables.items)), quietly w)
unfolding get_order scan_order with_items call get_order_by_id list_order_items guarded reveal
    verify_order_access verify_order_access_token
get_order-reads host id token w o valid found named hashed same =
    rw (valid, found, same, named, hashed, eq_refl (host.digest token)) refl
