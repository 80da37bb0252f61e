-- ===== src/Server.antt =====
-- backend/cmd/server/main.go and backend/internal/service/product.go: the services over one store,
-- wired into the router; the job that cancels stale orders; and the catalog of backend/cmd/seed/main.go.
pub mod Keeping
pub mod History
pub mod Listing
pub mod SignIn
pub mod Recovery
pub mod Payments
pub mod Cleanup
use stripe_payment_integrati.Http.Middleware.Limits.Counting.{table_counter}
use stripe_payment_integrati.Prelude.{
  ℕ, zero, suc, ◌*◌, String, ◌==◌, Bool, true, some, List, [], ◌∷◌, if◌then◌else◌,
}
use stripe_payment_integrati.Prelude.Int.{pos}
use stripe_payment_integrati.Db.{ok, Product}
use stripe_payment_integrati.Db.Accounts.{get_user_session_by_token_hash, touch_user_session}
use stripe_payment_integrati.Db.Buckets.{increment_rate_limit_bucket, ping}
use stripe_payment_integrati.Db.Orders.{cancel_stale_pending_orders}
use stripe_payment_integrati.Db.Products.{list_active_products, upsert_product}
use stripe_payment_integrati.World.{Run, Try, pure, bind, try_bind, call}
use stripe_payment_integrati.Stripe.{Sdk}
use stripe_payment_integrati.Auth.{
  Vault, register, login, logout, get_user, request_password_reset, reset_password, verify_email,
}
use stripe_payment_integrati.Checkout.{Host}
use stripe_payment_integrati.Checkout.Access.{get_order, get_order_by_session, list_orders_for_user}
use stripe_payment_integrati.Checkout.Create.{create_checkout_session}
use stripe_payment_integrati.Webhook.{handle}
use stripe_payment_integrati.Config.{Config, production}
use stripe_payment_integrati.Http.Handlers.{
  ProductCatalog, OrderService, WebhookProcessor, UserAuthenticator, HealthStore,
}
use stripe_payment_integrati.Http.Cookies.{second}
use stripe_payment_integrati.Http.Middleware.Limits.{RateLimitCounter}
use stripe_payment_integrati.Http.Middleware.Sessions.{SessionLookup}
use stripe_payment_integrati.Http.Router.{RouterDeps}

abbrev pub health_store : HealthStore
health_store = record { ping = call ping }

abbrev pub product_service : ProductCatalog
product_service = record { list_products = call list_active_products }

abbrev pub session_store : SessionLookup
session_store = record {
  by_token_hash = λ hash. call (get_user_session_by_token_hash hash);
  touch = λ id expires. call (touch_user_session id expires);
}

abbrev pub rate_limit_store : RateLimitCounter
rate_limit_store = table_counter

-- Handle reports its failures as outcomes.
abbrev pub webhook_service : Sdk → WebhookProcessor
webhook_service sdk = record {
  handle = λ body signature. bind (handle sdk body signature) λ outcome. pure (ok outcome);
}

abbrev pub auth_service : Vault → UserAuthenticator
auth_service vault = record {
  register = register vault;
  login = login vault;
  logout = logout vault;
  get_user = get_user vault;
  request_password_reset = request_password_reset vault;
  reset_password = reset_password vault;
  verify_email = verify_email vault;
}

-- `canceled` tells at which attempt of a wait the context is canceled.
abbrev pub order_service : Host → (ℕ → Bool) → String → OrderService
order_service host canceled frontend = record {
  create_checkout_session = create_checkout_session host frontend canceled;
  get_order = get_order host;
  get_order_by_session = get_order_by_session host;
  list_orders_for_user = list_orders_for_user;
}

abbrev pub tracing_name : Config → String
tracing_name c = if c.otel_exporter_otlp_endpoint == "" then "" else c.otel_service_name

module _ (vault : Vault) (host : Host) (canceled : ℕ → Bool) (sdk : Sdk) where
  -- the dependencies of the router that main builds
  unfoldable pub router_deps : Config → RouterDeps
  router_deps c = record {
    health = health_store;
    products = product_service;
    orders = order_service host canceled c.app_frontend_url;
    webhooks = webhook_service sdk;
    auth = auth_service vault;
    sessions = session_store;
    rate_limits = some rate_limit_store;
    cors_origin = c.cors_origin;
    secure_cookies = c.env == production;
    metrics_enabled = c.metrics_enabled;
    metrics_api_key = c.metrics_api_key;
    tracing_service_name = tracing_name c;
  }

abbrev pub stale_after : ℕ
stale_after = 900 * second

-- so many ticks; an error of one is logged
unfoldable pub run_stale_order_cleanup : ℕ → Run (Unit {0})
run_stale_order_cleanup zero = pure tt
run_stale_order_cleanup (suc n) =
    bind (call (cancel_stale_pending_orders stale_after)) λ _. run_stale_order_cleanup n

abbrev seeded : String → String → String → ℕ → Product
seeded id name description cents = record {
  id = id;
  name = name;
  description = some description;
  unit_amount_cents = pos cents;
  currency = "usd";
  active = true;
}

abbrev pub seed_products : List Product
seed_products =
    seeded "d4j8k2m9q1p7n3s6" "Pro License" "One-time purchase for personal use" 4900
    ∷ seeded "d4j8k2m9q1p7n3s7" "Team License" "Team license for up to 10 members" 19900
    ∷ seeded "d4j8k2m9q1p7n3s8" "Donation" "Support the project" 500
    ∷ []

-- The first error ends the command.
unfoldable pub seed : List Product → Try (Unit {0})
seed [] = pure (ok tt)
seed (p ∷ rest) = try_bind (call (upsert_product p)) λ _. seed rest
