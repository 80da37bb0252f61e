-- ===== src/Checkout/Access.antt =====
-- backend/internal/service/order.go: reading an order, for which a client shows the order's token; and
-- the tokens of backend/internal/auth/ordertoken.go and sessiontoken.go.
pub mod Keeping
pub mod Guard
pub mod Reading
use stripe_payment_integrati.Prelude.{
  ℕ, String, ◌==◌, ◌≡◌, refl, Bool, true, false, ◌&&◌, ◌||◌, not, Option, none, some, List, [], ◌∷◌,
  if◌then◌else◌, eqb, or_empty, starts_with,
}
use stripe_payment_integrati.Prelude.Text.{trim_space, len}
use stripe_payment_integrati.Db.{Order, OrderItem, Error, Result, ok, err, Statement, no_randomness}
use stripe_payment_integrati.Db.Orders.{
  get_order_by_id, get_order_by_session_id, list_orders_by_customer_id,
}
use stripe_payment_integrati.World.{
  Run, Try, World, pure, bind, continue, try_bind, draw_token, call,
}
use stripe_payment_integrati.World.Scan.{scan_order}
use stripe_payment_integrati.Checkout.{Host, validation_error}

abbrev pub unauthorized : Error
unauthorized = Error.app (record {
  status = 401;
  code = "UNAUTHORIZED";
  message = "invalid or missing order access token";
})

-- a token and its hash, from the next bytes of crypto/rand
unfoldable pub token_of : Host → Option String → Result (String × String)
token_of host none = err no_randomness
token_of host (some token) = ok (token, host.digest token)

unfoldable pub generate_order_access_token : Host → Try (String × String)
unfolding token_of
generate_order_access_token host = bind draw_token λ drawn. pure (token_of host drawn)

unfoldable pub verify_order_access_token : Host → String → String → Bool
verify_order_access_token host token stored =
    if (token == "") || (stored == "") then false else host.digest token == stored

unfoldable pub valid_order_id : Host → String → Bool
valid_order_id host id = let t = trim_space id in eqb (len t) 20 && host.is_xid t

unfoldable pub verify_order_access : Host → Order → String → Result (Unit {0})
unfolding verify_order_access_token
verify_order_access host o token =
    if verify_order_access_token host token (or_empty o.access_token_hash)
    then ok tt
    else err unauthorized

reveal : Order × List OrderItem → Result (Unit {0}) → Result (Option (Order × List OrderItem))
reveal found (ok _) = ok (some found)
reveal found (err e) = err e

guarded : Host → String → Option (Order × List OrderItem) → Result (Option (Order × List OrderItem))
unfolding reveal
guarded host token none = ok none
guarded host token (some (o, items)) = reveal (o, items) (verify_order_access host o token)

unfoldable pub get_order : Host → String → String → Try (Option (Order × List OrderItem))
unfolding scan_order guarded
get_order host id token =
    if valid_order_id host id
    then try_bind (scan_order (get_order_by_id id)) (λ found. pure (guarded host token found))
    else pure (err (validation_error "invalid order id"))

unfoldable pub get_order_by_session : Host → String → String → Try (Option (Order × List OrderItem))
unfolding scan_order guarded
get_order_by_session host session token =
    if starts_with session "cs_"
    then try_bind (scan_order (get_order_by_session_id session))
        (λ found. pure (guarded host token found))
    else pure (err (validation_error "invalid session id"))

unfoldable pub list_orders_for_user : String → Try (List Order)
list_orders_for_user customer = call (list_orders_by_customer_id customer 20)
