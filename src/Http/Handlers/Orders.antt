-- ===== src/Http/Handlers/Orders.antt =====
-- backend/internal/handler/checkout.go and orders.go.
use stripe_payment_integrati.Prelude.{String, Option, none, some, List, [], map}
use stripe_payment_integrati.Db.{Order, OrderItem, Result, ok, err, Error}
use stripe_payment_integrati.World.{Run, pure, bind}
use stripe_payment_integrati.Checkout.{CheckoutResult}
use stripe_payment_integrati.Http.{Writer, Request, Response, Handler, AuthUser, Payload, Count}
use stripe_payment_integrati.Http.Api.{write_json, write_error, new_order_response, counting}
use stripe_payment_integrati.Http.Cookies.{user_from_context}
use stripe_payment_integrati.Http.Handlers.{
  Codec, OrderService, with_body, serve, answer, invalid_json_body,
}

module _ (codec : Codec) (service : OrderService) where
  checkout_outcome : Result CheckoutResult → String
  checkout_outcome (ok a) = "success"
  checkout_outcome (err (Error.app e)) = codec.to_lower e.code
  checkout_outcome (err _) = "error"

  unfoldable pub record_checkout_outcome : Result CheckoutResult → Count
  unfolding checkout_outcome
  record_checkout_outcome res = Count.checkout_sessions (checkout_outcome res)

  unfoldable pub checked_out : Writer → Result CheckoutResult → Run Response
  checked_out w res =
      bind (answer w res λ result. pure (write_json w 201 (Payload.checkout result)))
        λ response. pure (counting (record_checkout_outcome res) response)

  unfoldable pub open_checkout : Handler
  open_checkout w r =
      with_body invalid_json_body (codec.decode_checkout r.body)
        (λ input w r.
          bind (service.create_checkout_session (r.header "Idempotency-Key") input) (checked_out w))
        w r

  abbrev pub order_access_token : Request → String
  order_access_token r = r.header "X-Order-Token"

  unfoldable pub show_order : Writer → Option (Order × List OrderItem) → Run Response
  show_order w none = pure (write_error w 404 "NOT_FOUND" "order not found")
  show_order w (some found) =
      pure (write_json w 200 (Payload.one_order (new_order_response codec.format_time found)))

  unfoldable pub get_by_id : Handler
  get_by_id w r = serve w (service.get_order (r.param "id") (order_access_token r)) (show_order w)

  unfoldable pub get_by_session : Handler
  get_by_session w r =
      serve w (service.get_order_by_session (r.param "sessionId") (order_access_token r))
        (show_order w)

  -- The rows are listed without their items.
  abbrev pub listed : List Order → Payload
  listed rows = Payload.orders (map (λ o. new_order_response codec.format_time (o, [])) rows)

  unfoldable pub list_of : Writer → Option AuthUser → Run Response
  list_of w none = pure (write_error w 401 "UNAUTHORIZED" "user session required")
  list_of w (some session) =
      serve w (service.list_orders_for_user session.id)
        λ rows. pure (write_json w 200 (listed rows))

  unfoldable pub list_mine : Handler
  unfolding list_of
  list_mine w r = list_of w (user_from_context r)
