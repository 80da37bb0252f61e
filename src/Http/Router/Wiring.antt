-- ===== src/Http/Router/Wiring.antt =====
-- backend/internal/server/router.go, NewRouter.
use stripe_payment_integrati.Prelude.{ℕ, String, Bool, true, Option, none, some}
use stripe_payment_integrati.World.{Run, pure}
use stripe_payment_integrati.Http.{Request, Response, Handler, Middleware, fresh_writer}
use stripe_payment_integrati.Http.Handlers.Accounts.{
  register_account, log_in, log_out, me, forgot_password, change_forgotten_password, confirm_email,
}
use stripe_payment_integrati.Http.Handlers.Orders.{
  open_checkout, get_by_id, get_by_session, list_mine,
}
use stripe_payment_integrati.Http.Handlers.Catalog.{list_catalog, live, ready, metrics}
use stripe_payment_integrati.Http.Handlers.Webhooks.{stripe_webhook}
use stripe_payment_integrati.Http.Middleware.{
  security_headers, assign_request_id, limit_request_body, tracing, require_api_key,
}
use stripe_payment_integrati.Http.Middleware.Limits.{
  RateLimitCounter, Quota, rate_limit_by_ip_postgres, rate_limit_by_ip,
}
use stripe_payment_integrati.Http.Middleware.Sessions.{require_user_session}
use stripe_payment_integrati.Http.Router.{
  Endpoint, RouterDeps, Routed, Libraries, quota, max_body_bytes,
}

module _ (libs : Libraries) (deps : RouterDeps) where
  unfoldable pub limiter : Option RateLimitCounter → Quota → Middleware
  limiter (some counter) q = rate_limit_by_ip_postgres libs.net counter q
  limiter none q = rate_limit_by_ip libs.net libs.over q

  unfoldable pub rate_limit : String → ℕ → Middleware
  unfolding limiter
  rate_limit name limit = limiter deps.rate_limits (quota name limit)

  -- the group of the routes that need a session
  unfoldable pub for_users : Middleware
  for_users next = require_user_session libs.digest deps.sessions (rate_limit "auth-user" 60 next)

  -- the handler of an endpoint, with the middleware of its group
  unfoldable pub endpoint : Endpoint → Handler
  endpoint Endpoint.health_live = live
  endpoint Endpoint.health_ready = ready deps.health
  endpoint Endpoint.health = ready deps.health
  endpoint Endpoint.metrics_page = require_api_key deps.metrics_api_key (metrics libs.exposition)
  endpoint Endpoint.catalog = list_catalog deps.products
  endpoint Endpoint.auth_register =
      rate_limit "auth-register" 5 (register_account libs.codec deps.auth deps.secure_cookies)
  endpoint Endpoint.auth_login =
      rate_limit "auth-login" 10 (log_in libs.codec deps.auth deps.secure_cookies)
  endpoint Endpoint.auth_logout = log_out libs.codec deps.auth deps.secure_cookies
  endpoint Endpoint.auth_forgot_password =
      rate_limit "auth-forgot-password" 5 (forgot_password libs.codec deps.auth deps.secure_cookies)
  endpoint Endpoint.auth_reset_password =
      rate_limit "auth-reset-password" 10
        (change_forgotten_password libs.codec deps.auth deps.secure_cookies)
  endpoint Endpoint.auth_verify_email =
      rate_limit "auth-verify-email" 10 (confirm_email libs.codec deps.auth deps.secure_cookies)
  endpoint Endpoint.checkout_sessions =
      rate_limit "checkout" 20 (open_checkout libs.codec deps.orders)
  endpoint Endpoint.order_by_id = rate_limit "orders-read" 120 (get_by_id libs.codec deps.orders)
  endpoint Endpoint.order_by_session =
      rate_limit "orders-read" 120 (get_by_session libs.codec deps.orders)
  endpoint Endpoint.auth_me = for_users (me libs.codec deps.auth deps.secure_cookies)
  endpoint Endpoint.orders_mine = for_users (list_mine libs.codec deps.orders)
  endpoint Endpoint.webhooks_stripe =
      rate_limit "webhooks" 120 (stripe_webhook libs.codec deps.webhooks)

  unfoldable pub is_registered : Endpoint → Bool
  is_registered Endpoint.metrics_page = deps.metrics_enabled
  is_registered _ = true

  unfoldable pub dispatch : Routed → Handler
  dispatch (Routed.matched e params) w r = endpoint e w (record r { param = params })
  dispatch Routed.no_route w r = pure (libs.not_found w)
  dispatch Routed.no_method w r = pure (libs.method_not_allowed w)

  unfoldable pub routes : Handler
  unfolding dispatch
  routes w r = dispatch (libs.find is_registered r.method r.path) w r

  -- the middleware of all requests, the outermost first
  unfoldable pub new_router : Request → Run Response
  new_router r =
      tracing libs.instrument deps.tracing_service_name
        (security_headers (
          assign_request_id
            (limit_request_body max_body_bytes (libs.cors deps.cors_origin routes))))
        fresh_writer (libs.real_ip r)
