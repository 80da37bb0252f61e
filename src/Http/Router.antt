-- ===== src/Http/Router.antt =====
-- backend/internal/server/router.go: which handler an endpoint has, and behind which middleware.
pub mod Wiring
pub mod Keeping
pub mod Shape
use stripe_payment_integrati.Prelude.{ℕ, ◌*◌, String, Bool, true, Option, none, some, if◌then◌else◌}
use stripe_payment_integrati.World.{Run, Try, pure, bind}
use stripe_payment_integrati.Http.{Request, Response, Writer, Handler, Middleware, fresh_writer}
use stripe_payment_integrati.Http.Cookies.{second}
use stripe_payment_integrati.Http.Handlers.{
  Codec, ProductCatalog, OrderService, WebhookProcessor, UserAuthenticator, HealthStore,
}
use stripe_payment_integrati.Http.Middleware.Limits.{Net, RateLimitCounter, Quota}
use stripe_payment_integrati.Http.Middleware.Sessions.{SessionLookup}

pub data Endpoint : Type 0 where
  health_live health_ready health metrics_page : Endpoint
  catalog : Endpoint
  auth_register auth_login auth_logout : Endpoint
  auth_forgot_password auth_reset_password auth_verify_email : Endpoint
  checkout_sessions order_by_id order_by_session : Endpoint
  auth_me orders_mine : Endpoint
  webhooks_stripe : Endpoint

unfoldable pub pattern : Endpoint → String × String
pattern Endpoint.health_live = ("GET", "/health/live")
pattern Endpoint.health_ready = ("GET", "/health/ready")
pattern Endpoint.health = ("GET", "/health")
pattern Endpoint.metrics_page = ("GET", "/metrics")
pattern Endpoint.catalog = ("GET", "/api/products")
pattern Endpoint.auth_register = ("POST", "/api/auth/register")
pattern Endpoint.auth_login = ("POST", "/api/auth/login")
pattern Endpoint.auth_logout = ("POST", "/api/auth/logout")
pattern Endpoint.auth_forgot_password = ("POST", "/api/auth/forgot-password")
pattern Endpoint.auth_reset_password = ("POST", "/api/auth/reset-password")
pattern Endpoint.auth_verify_email = ("POST", "/api/auth/verify-email")
pattern Endpoint.checkout_sessions = ("POST", "/api/checkout/sessions")
pattern Endpoint.order_by_id = ("GET", "/api/orders/{id}")
pattern Endpoint.order_by_session = ("GET", "/api/orders/by-session/{sessionId}")
pattern Endpoint.auth_me = ("GET", "/api/auth/me")
pattern Endpoint.orders_mine = ("GET", "/api/orders/mine")
pattern Endpoint.webhooks_stripe = ("POST", "/api/webhooks/stripe")

pub record RouterDeps : Type 0 where
  pub health : HealthStore
  pub products : ProductCatalog
  pub orders : OrderService
  pub webhooks : WebhookProcessor
  pub auth : UserAuthenticator
  pub sessions : SessionLookup
  pub rate_limits : Option RateLimitCounter
  pub cors_origin : String
  pub secure_cookies : Bool
  pub metrics_enabled : Bool
  pub metrics_api_key : String
  pub tracing_service_name : String

-- chi's answer to a method and a path: an endpoint with its URL parameters, or none.
pub data Routed : Type 0 where
  matched : Endpoint → (String → String) → Routed
  no_route no_method : Routed

-- What comes from libraries: encoding/json and time, net, SHA-256, httprate (whether a request is one too
-- many), chi's RealIP, its search among the registered patterns and its answers where it finds none,
-- go-chi/cors, otelhttp, and the text of promhttp.
pub record Libraries : Type 0 where
  pub codec : Codec
  pub net : Net
  pub digest : String → String
  pub over : Quota → Request → Run Bool
  pub real_ip : Request → Request
  pub find : (Endpoint → Bool) → String → String → Routed
  pub not_found : Writer → Response
  pub method_not_allowed : Writer → Response
  pub cors : String → Middleware
  pub instrument : String → (String → Bool) → Middleware
  pub exposition : String

abbrev pub minute : ℕ
minute = 60 * second

abbrev pub quota : String → ℕ → Quota
quota name limit = record { name = name; limit = limit; window = minute }

abbrev pub max_body_bytes : ℕ
max_body_bytes = 1048576
