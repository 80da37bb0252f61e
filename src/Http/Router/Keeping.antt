-- ===== src/Http/Router/Keeping.antt =====
-- Every endpoint keeps every relation between tables that the services and the middleware's store keep.
use stripe_payment_integrati.Http.Cookies.{
  session_token_from_request, set_session_cookie, with_user,
}
use stripe_payment_integrati.Http.Handlers.Catalog.{live, metrics}
use stripe_payment_integrati.Http.Middleware.{require_api_key}
use stripe_payment_integrati.Http.Middleware.Sessions.{
  extend_session, for_session, require_user_session, session_sliding_ttl,
}
use stripe_payment_integrati.Http.Router.Wiring.{
  rate_limit, for_users, endpoint, routes, limiter, dispatch, is_registered,
}
use stripe_payment_integrati.Prelude.{ℕ, String, ◌==◌, Option, none, some, ◌≡◌, ◌+◌}
use stripe_payment_integrati.Db.{Tables, Result, ok, err}
use stripe_payment_integrati.Db.Accounts.{UserSession}
use stripe_payment_integrati.World.Keeps.{
  Preorder, Keeps, Keeps-pure, Keeps-bind, Keeps-read_clock, Keeps-if,
}
use stripe_payment_integrati.Http.{Writer, Request, Handler}
use stripe_payment_integrati.Http.Handlers.Keeping.{
  HandlerKeeps, AccountsKeep, OrdersKeep, ready-Keeps, list_catalog-Keeps, register_account-Keeps,
  log_in-Keeps, log_out-Keeps, forgot_password-Keeps, change_forgotten_password-Keeps,
  confirm_email-Keeps, open_checkout-Keeps, get_by_id-Keeps, get_by_session-Keeps, me-Keeps,
  list_mine-Keeps, stripe_webhook-Keeps,
}
use stripe_payment_integrati.Http.Middleware.Limits.{
  RateLimitCounter, Quota, Admission, admit, let_through, bucket_key, window_of,
  rate_limit_by_ip_postgres, judge, Net,
}
use stripe_payment_integrati.Http.Router.{Endpoint, RouterDeps, Routed, Libraries, quota}

-- What the router needs of its dependencies; httprate counts in memory, outside the tables.
pub record DepsKeep (R : Tables → Tables → Type 0) (deps : RouterDeps) : Type 0 where
  pub order : Preorder R
  pub accounts : AccountsKeep R deps.auth
  pub orders : OrdersKeep R deps.orders
  pub lists : Keeps R deps.products.list_products
  pub handles : (body signature : String) → Keeps R (deps.webhooks.handle body signature)
  pub pings : Keeps R deps.health.ping
  pub finds_session : (hash : String) → Keeps R (deps.sessions.by_token_hash hash)
  pub touches : (id : String) (expires : ℕ) → Keeps R (deps.sessions.touch id expires)
  pub counter : RateLimitCounter
  pub limited : deps.rate_limits ≡ some counter
  pub counts : (key : String) (start : ℕ) → Keeps R (counter.increment key start)

pub admit-Keeps :
    {R : Tables → Tables → Type 0} (order : Preorder R) (net : Net) (counter : RateLimitCounter)
    → ((key : String) (start : ℕ) → Keeps R (counter.increment key start))
    → (q : Quota) (address : String) → Keeps R (admit net counter q address)
unfolding admit
admit-Keeps order net counter counts q address =
    Keeps-bind order _ _ (Keeps-read_clock order) λ now.
      Keeps-bind order _ _ (counts (bucket_key net counter q address) (window_of q.window now))
        (λ count. Keeps-pure order (judge q.limit count))

module _ {R : Tables → Tables → Type 0} (libs : Libraries) (deps : RouterDeps)
    (keeps : DepsKeep R deps) where
  through-Keeps :
      (q : Quota) (next : Handler) (w : Writer) (r : Request) (a : Admission)
      → HandlerKeeps R next
      → Keeps R (let_through libs.net keeps.counter q next w r a)
  unfolding let_through
  through-Keeps q next w r Admission.admitted h = h w r
  through-Keeps q next w r Admission.limited h = Keeps-pure keeps.order _
  through-Keeps q next w r Admission.uncounted h = Keeps-pure keeps.order _

  rate_limit-Keeps :
      (name : String) (limit : ℕ) (next : Handler)
      → HandlerKeeps R next
      → HandlerKeeps R (rate_limit libs deps name limit next)
  unfolding rate_limit limiter rate_limit_by_ip_postgres
  rate_limit-Keeps name limit next h w r = rw keeps.limited (
      Keeps-bind keeps.order _ _
        (admit-Keeps keeps.order libs.net keeps.counter keeps.counts (quota name limit)
          r.remote_addr)
        (λ a. through-Keeps (quota name limit) next w r a h))

  extend-Keeps :
      (next : Handler) (w : Writer) (r : Request) (token : String) (s : UserSession)
      → HandlerKeeps R next
      → Keeps R (extend_session libs.digest deps.sessions next w r token s)
  unfolding extend_session
  extend-Keeps next w r token s h = Keeps-bind keeps.order _ _ (Keeps-read_clock keeps.order) λ now.
      Keeps-bind keeps.order _ _ (keeps.touches s.id (now + session_sliding_ttl)) λ dropped.
        Keeps-bind keeps.order _ _ (Keeps-read_clock keeps.order) λ later.
          h (set_session_cookie token later (now + session_sliding_ttl) r.tls w)
            (with_user (record { id = s.customer_id; email = s.email }) r)

  for_session-Keeps :
      (next : Handler) (w : Writer) (r : Request) (token : String)
      (found : Result (Option UserSession))
      → HandlerKeeps R next
      → Keeps R (for_session libs.digest deps.sessions next w r token found)
  unfolding for_session
  for_session-Keeps next w r token (err e) h = Keeps-pure keeps.order _
  for_session-Keeps next w r token (ok none) h = Keeps-pure keeps.order _
  for_session-Keeps next w r token (ok (some s)) h = extend-Keeps next w r token s h

  for_users-Keeps :
      (next : Handler) → HandlerKeeps R next → HandlerKeeps R (for_users libs deps next)
  unfolding for_users require_user_session
  for_users-Keeps next h w r =
      let token = session_token_from_request r in
      Keeps-if keeps.order (token == "") _ _ (Keeps-pure keeps.order _) (
        Keeps-bind keeps.order _ _ (keeps.finds_session (libs.digest token))
          (λ found. for_session-Keeps _ w r token found (rate_limit-Keeps "auth-user" 60 next h)))

  key-Keeps :
      (expected : String) (next : Handler)
      → HandlerKeeps R next
      → HandlerKeeps R (require_api_key expected next)
  unfolding require_api_key
  key-Keeps expected next h w r =
      Keeps-if keeps.order (expected == "") _ _ (Keeps-pure keeps.order _) (
        Keeps-if keeps.order (r.header "X-API-Key" == expected) _ _ (h w r)
          (Keeps-pure keeps.order _))

  pub endpoint-Keeps : (e : Endpoint) → HandlerKeeps R (endpoint libs deps e)
  unfolding endpoint live metrics
  endpoint-Keeps Endpoint.health_live = λ w r. Keeps-pure keeps.order _
  endpoint-Keeps Endpoint.health_ready = ready-Keeps keeps.order deps.health keeps.pings
  endpoint-Keeps Endpoint.health = ready-Keeps keeps.order deps.health keeps.pings
  endpoint-Keeps Endpoint.metrics_page =
      key-Keeps deps.metrics_api_key _ (λ w r. Keeps-pure keeps.order _)
  endpoint-Keeps Endpoint.catalog = list_catalog-Keeps keeps.order deps.products keeps.lists
  endpoint-Keeps Endpoint.auth_register =
      rate_limit-Keeps "auth-register" 5 _
        (register_account-Keeps keeps.order libs.codec deps.auth deps.secure_cookies keeps.accounts)
  endpoint-Keeps Endpoint.auth_login =
      rate_limit-Keeps "auth-login" 10 _
        (log_in-Keeps keeps.order libs.codec deps.auth deps.secure_cookies keeps.accounts)
  endpoint-Keeps Endpoint.auth_logout =
      log_out-Keeps keeps.order libs.codec deps.auth deps.secure_cookies keeps.accounts
  endpoint-Keeps Endpoint.auth_forgot_password =
      rate_limit-Keeps "auth-forgot-password" 5 _
        (forgot_password-Keeps keeps.order libs.codec deps.auth deps.secure_cookies keeps.accounts)
  endpoint-Keeps Endpoint.auth_reset_password = rate_limit-Keeps "auth-reset-password" 10 _ (
      change_forgotten_password-Keeps keeps.order libs.codec deps.auth deps.secure_cookies
        keeps.accounts)
  endpoint-Keeps Endpoint.auth_verify_email =
      rate_limit-Keeps "auth-verify-email" 10 _
        (confirm_email-Keeps keeps.order libs.codec deps.auth deps.secure_cookies keeps.accounts)
  endpoint-Keeps Endpoint.checkout_sessions =
      rate_limit-Keeps "checkout" 20 _
        (open_checkout-Keeps keeps.order libs.codec deps.orders keeps.orders)
  endpoint-Keeps Endpoint.order_by_id =
      rate_limit-Keeps "orders-read" 120 _
        (get_by_id-Keeps keeps.order libs.codec deps.orders keeps.orders)
  endpoint-Keeps Endpoint.order_by_session =
      rate_limit-Keeps "orders-read" 120 _
        (get_by_session-Keeps keeps.order libs.codec deps.orders keeps.orders)
  endpoint-Keeps Endpoint.auth_me =
      for_users-Keeps _
        (me-Keeps keeps.order libs.codec deps.auth deps.secure_cookies keeps.accounts)
  endpoint-Keeps Endpoint.orders_mine =
      for_users-Keeps _ (list_mine-Keeps keeps.order libs.codec deps.orders keeps.orders)
  endpoint-Keeps Endpoint.webhooks_stripe =
      rate_limit-Keeps "webhooks" 120 _
        (stripe_webhook-Keeps keeps.order libs.codec deps.webhooks keeps.handles)

  -- the router, up to the middleware of the libraries
  pub routes-Keeps : HandlerKeeps R (routes libs deps)
  unfolding routes dispatch
  routes-Keeps w r = dispatched (libs.find (is_registered libs deps) r.method r.path)
    where
      dispatched : (found : Routed) → Keeps R (dispatch libs deps found w r)
      dispatched (Routed.matched e params) = endpoint-Keeps e w (record r { param = params })
      dispatched Routed.no_route = Keeps-pure keeps.order _
      dispatched Routed.no_method = Keeps-pure keeps.order _
