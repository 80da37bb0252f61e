-- ===== src/Checkout/Replay.antt =====
-- backend/internal/service/checkout.go, resolveIdempotency, and order.go, replayCheckout: what a
-- second request under an idempotency key is answered.
pub mod Keeping
pub mod Verdicts
pub mod Exact
use stripe_payment_integrati.Prelude.{
  String, ◌==◌, ◌&&◌, not, Option, List, none, some, if◌then◌else◌, or_empty,
}
use stripe_payment_integrati.Domain.{is_hosted, is_embedded}
use stripe_payment_integrati.Db.{Order, OrderItem, Metadata, Error, ok, err}
use stripe_payment_integrati.Db.Orders.{
  get_entry, is_canceled, get_order_by_idempotency_key, clear_order_idempotency_key,
  update_order_access_token_hash,
}
use stripe_payment_integrati.World.{Try, pure, try_bind, call}
use stripe_payment_integrati.World.Scan.{scan_order}
use stripe_payment_integrati.Checkout.{CheckoutResult, Host}
use stripe_payment_integrati.Checkout.Access.{generate_order_access_token}

abbrev pub idempotency_conflict : Error
idempotency_conflict = Error.app (record {
  status = 409;
  code = "IDEMPOTENCY_CONFLICT";
  message = "idempotency key reused with different body";
})

abbrev pub checkout_in_progress : Error
checkout_in_progress = Error.app (record {
  status = 409;
  code = "CHECKOUT_IN_PROGRESS";
  message = "checkout session creation in progress";
})

-- "" where the metadata has no hash
unfoldable pub extract_request_hash : Metadata → String
extract_request_hash m = or_empty (get_entry "_request_body_hash" m)

unfoldable pub replay_checkout : Order → String → CheckoutResult
replay_checkout o token = record {
  order_id = o.id;
  order_number = o.order_number;
  session_id = or_empty o.session_id;
  url = if is_hosted o.ui_mode then or_empty o.checkout_url else "";
  client_secret = if is_embedded o.ui_mode then or_empty o.client_secret else "";
  access_token = token;
}

module _ (host : Host) where
  renew_token : Order → Try (Option CheckoutResult)
  renew_token o = try_bind (generate_order_access_token host) λ (t : String × String).
      try_bind (call (update_order_access_token_hash o.id t.1))
        λ _. pure (ok (some (replay_checkout o t.0)))

  -- what an order under the key leads to
  unfoldable pub replay_existing : String → Order → Try (Option CheckoutResult)
  unfolding renew_token
  replay_existing body_hash o =
      if is_canceled o.status
      then try_bind (call (clear_order_idempotency_key o.id)) (λ _. pure (ok none))
      else if not (extract_request_hash o.metadata == "")
          && not (extract_request_hash o.metadata == body_hash)
      then pure (err idempotency_conflict)
      else if or_empty o.session_id == ""
      then pure (err checkout_in_progress)
      else renew_token o

  replay_found : String → Option (Order × List OrderItem) → Try (Option CheckoutResult)
  replay_found body_hash none = pure (ok none)
  replay_found body_hash (some (o, items)) = replay_existing body_hash o

  unfoldable pub resolve_idempotency : String → String → Try (Option CheckoutResult)
  unfolding replay_found
  resolve_idempotency key body_hash =
      if key == ""
      then pure (ok none)
      else try_bind (scan_order (get_order_by_idempotency_key key)) (replay_found body_hash)
