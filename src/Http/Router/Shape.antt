-- ===== src/Http/Router/Shape.antt =====
-- backend/internal/api/response.go: the envelope, in the answers of all endpoints.
use stripe_payment_integrati.Http.Handlers.Shape.{
  Shaped, HandlerShaped, failure, fails, succeeds, serve-Shaped, register-Shaped, log_in-Shaped,
  log_out-Shaped, forgot-Shaped, reset-Shaped, verify-Shaped, open-Shaped, by_id-Shaped,
  by_session-Shaped, me-Shaped, list-Shaped, hook-Shaped,
}
use stripe_payment_integrati.Http.Handlers.Catalog.{live, list_catalog}
use stripe_payment_integrati.Http.Cookies.{
  set_session_cookie, session_token_from_request, with_user,
}
use stripe_payment_integrati.Http.Middleware.Sessions.{
  for_session, extend_session, require_user_session, session_sliding_ttl,
}
use stripe_payment_integrati.Http.Router.Wiring.{limiter, rate_limit, for_users, endpoint}
use stripe_payment_integrati.Prelude.{
  ℕ, String, ◌==◌, ◌≡◌, Bool, true, false, Option, none, some, ◌+◌,
}
use stripe_payment_integrati.Db.{Result, ok, err}
use stripe_payment_integrati.Db.Accounts.{UserSession}
use stripe_payment_integrati.World.{pure, read_clock, World}
use stripe_payment_integrati.World.Yields.{Yields, Yields-bind, Yields-if}
use stripe_payment_integrati.Http.{Writer, Request, Handler}
use stripe_payment_integrati.Http.Middleware.Limits.{
  RateLimitCounter, Quota, Admission, let_through, rate_limit_by_ip_postgres, rate_limit_by_ip,
  admit, Net, too_many,
}
use stripe_payment_integrati.Http.Router.{Endpoint, RouterDeps, Libraries, quota}

limited-Shaped : (net : Net) (q : Quota) (w : Writer) → Yields Shaped (pure (too_many net q w))
limited-Shaped net q w = record { at = λ world. failure }

module _ (libs : Libraries) (deps : RouterDeps) where
  through-Shaped :
      (counter : RateLimitCounter) (q : Quota) (next : Handler) (w : Writer) (r : Request)
      (a : Admission)
      → HandlerShaped next
      → Yields Shaped (let_through libs.net counter q next w r a)
  unfolding let_through
  through-Shaped counter q next w r Admission.admitted h = h w r
  through-Shaped counter q next w r Admission.limited h = record { at = λ world. failure }
  through-Shaped counter q next w r Admission.uncounted h = record { at = λ world. failure }

  limiter-Shaped :
      (counter : Option RateLimitCounter) (q : Quota) (next : Handler)
      → HandlerShaped next
      → HandlerShaped (limiter libs deps counter q next)
  unfolding limiter rate_limit_by_ip_postgres rate_limit_by_ip
  limiter-Shaped (some counter) q next h w r =
      Yields-bind (admit libs.net counter q r.remote_addr) _
        (λ a. through-Shaped counter q next w r a h)
  limiter-Shaped none q next h w r = Yields-bind (libs.over q r) _ (λ over.
      Yields-if over (pure (too_many libs.net q w)) (next w r) (limited-Shaped libs.net q w)
        (h w r))

  rate_limit-Shaped :
      (name : String) (limit : ℕ) (next : Handler)
      → HandlerShaped next
      → HandlerShaped (rate_limit libs deps name limit next)
  unfolding rate_limit
  rate_limit-Shaped name limit next h = limiter-Shaped deps.rate_limits (quota name limit) next h

  session-Shaped :
      (next : Handler) (w : Writer) (r : Request) (token : String)
      (found : Result (Option UserSession))
      → HandlerShaped next
      → Yields Shaped (for_session libs.digest deps.sessions next w r token found)
  unfolding for_session extend_session
  session-Shaped next w r token (err e) h = record { at = λ world. failure }
  session-Shaped next w r token (ok none) h = record { at = λ world. failure }
  session-Shaped next w r token (ok (some s)) h = Yields-bind read_clock _ λ now.
      Yields-bind (deps.sessions.touch s.id (now + session_sliding_ttl)) _ λ dropped.
        Yields-bind read_clock _ λ later.
          h (set_session_cookie token later (now + session_sliding_ttl) r.tls w)
            (with_user (record { id = s.customer_id; email = s.email }) r)

  for_users-Shaped :
      (next : Handler) → HandlerShaped next → HandlerShaped (for_users libs deps next)
  unfolding for_users require_user_session
  for_users-Shaped next h w r =
      let token = session_token_from_request r in
      Yields-if (token == "") _ _ (fails w 401 "UNAUTHORIZED" "missing session") (
        Yields-bind (deps.sessions.by_token_hash (libs.digest token)) _
          (λ found. session-Shaped _ w r token found (rate_limit-Shaped "auth-user" 60 next h)))

-- The endpoints of the API: all but the two health checks that ask the store, and the metrics page.
abbrev pub is_api : Endpoint → Bool
is_api Endpoint.health_ready = false
is_api Endpoint.health = false
is_api Endpoint.metrics_page = false
is_api _ = true

module _ (libs : Libraries) (deps : RouterDeps) where
  shaped : (e : Endpoint) → is_api e ≡ true → HandlerShaped (endpoint libs deps e)
  unfolding endpoint live list_catalog
  shaped Endpoint.health_live h = λ w r. succeeds w _
  shaped Endpoint.health_ready h = cc
  shaped Endpoint.health h = cc
  shaped Endpoint.metrics_page h = cc
  shaped Endpoint.catalog h =
      λ w r. serve-Shaped w deps.products.list_products _ (λ rows. succeeds w _)
  shaped Endpoint.auth_register h =
      rate_limit-Shaped libs deps "auth-register" 5 _
        (register-Shaped libs.codec deps.auth deps.secure_cookies)
  shaped Endpoint.auth_login h =
      rate_limit-Shaped libs deps "auth-login" 10 _
        (log_in-Shaped libs.codec deps.auth deps.secure_cookies)
  shaped Endpoint.auth_logout h = log_out-Shaped libs.codec deps.auth deps.secure_cookies
  shaped Endpoint.auth_forgot_password h =
      rate_limit-Shaped libs deps "auth-forgot-password" 5 _
        (forgot-Shaped libs.codec deps.auth deps.secure_cookies)
  shaped Endpoint.auth_reset_password h =
      rate_limit-Shaped libs deps "auth-reset-password" 10 _
        (reset-Shaped libs.codec deps.auth deps.secure_cookies)
  shaped Endpoint.auth_verify_email h =
      rate_limit-Shaped libs deps "auth-verify-email" 10 _
        (verify-Shaped libs.codec deps.auth deps.secure_cookies)
  shaped Endpoint.checkout_sessions h =
      rate_limit-Shaped libs deps "checkout" 20 _ (open-Shaped libs.codec deps.orders)
  shaped Endpoint.order_by_id h =
      rate_limit-Shaped libs deps "orders-read" 120 _ (by_id-Shaped libs.codec deps.orders)
  shaped Endpoint.order_by_session h =
      rate_limit-Shaped libs deps "orders-read" 120 _ (by_session-Shaped libs.codec deps.orders)
  shaped Endpoint.auth_me h =
      for_users-Shaped libs deps _ (me-Shaped libs.codec deps.auth deps.secure_cookies)
  shaped Endpoint.orders_mine h = for_users-Shaped libs deps _ (list-Shaped libs.codec deps.orders)
  shaped Endpoint.webhooks_stripe h =
      rate_limit-Shaped libs deps "webhooks" 120 _ (hook-Shaped libs.codec deps.webhooks)

  -- Every endpoint of the API answers in the envelope: data with status 200 or 201 and no error, or an
  -- error and no data, whatever the services answer, whatever the limiter and the session store say, and
  -- under every schedule. The two health checks that ask the store and the metrics page are left out.
  pub endpoint-Shaped :
      (e : Endpoint) (w : Writer) (r : Request) (world : World)
      → is_api e ≡ true
      → Shaped (endpoint libs deps e w r world).0
  endpoint-Shaped e w r world h = (shaped e h w r).at world
