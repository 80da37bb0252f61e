-- ===== src/Server/Keeping.antt =====
-- The whole server keeps every relation between tables that the statements keep.
use stripe_payment_integrati.Db.Buckets.{ping}
use stripe_payment_integrati.Webhook.Keeping.{handle-Keeps}
use stripe_payment_integrati.Checkout.Access.Keeping.{
  get_order-Keeps, get_order_by_session-Keeps, list-Keeps,
}
use stripe_payment_integrati.Checkout.Create.Keeping.{create-Keeps}
use stripe_payment_integrati.Auth.Keeping.{
  register-Keeps, login-Keeps, logout-Keeps, by_token_hash-Keeps, get_user-Keeps,
  request_password_reset-Keeps, reset_password-Keeps, verify_email-Keeps,
}
use stripe_payment_integrati.Db.Products.{list_active_products}
use stripe_payment_integrati.Server.{
  auth_service, order_service, router_deps, handle, rate_limit_store,
}
use stripe_payment_integrati.Prelude.{ℕ, String, refl, Bool}
use stripe_payment_integrati.Db.{Tables, ok}
use stripe_payment_integrati.Db.Webhooks.{WebhookCompletion}
use stripe_payment_integrati.Rules.{WebhookRules, OrderRules, AccountRules}
use stripe_payment_integrati.World.{call}
use stripe_payment_integrati.World.Keeps.{Keeps, Keeps-pure, Keeps-bind, Keeps-call, Keeps-read}
use stripe_payment_integrati.World.Yields.{Yields, OnOk}
use stripe_payment_integrati.Completion.{build_completion}
use stripe_payment_integrati.Stripe.{Sdk, Event}
use stripe_payment_integrati.Auth.{Vault}
use stripe_payment_integrati.Checkout.{Host}
use stripe_payment_integrati.Config.{Config}
use stripe_payment_integrati.Http.Router.Keeping.{DepsKeep}
use stripe_payment_integrati.Http.Handlers.Keeping.{AccountsKeep, OrdersKeep}

module _ {R : Tables → Tables → Type 0} {P : WebhookCompletion → Type 0}
    (webhook : WebhookRules R P) (orders : OrderRules R) (accounts : AccountRules R) (vault : Vault)
    (host : Host) (canceled : ℕ → Bool) (sdk : Sdk)
    (built : (e : Event) → Yields (OnOk P) (build_completion sdk e)) where
  auth-Keeps : AccountsKeep R (auth_service vault)
  auth-Keeps = record {
    registers = register-Keeps accounts vault;
    logs_in = login-Keeps accounts vault;
    logs_out = logout-Keeps accounts vault;
    gets_user = get_user-Keeps accounts vault;
    requests_reset = request_password_reset-Keeps accounts vault;
    resets = reset_password-Keeps accounts vault;
    verifies = verify_email-Keeps accounts vault;
  }

  orders-Keeps : (frontend : String) → OrdersKeep R (order_service host canceled frontend)
  orders-Keeps frontend = record {
    checks_out = create-Keeps orders host frontend canceled;
    gets = get_order-Keeps orders host;
    gets_by_session = get_order_by_session-Keeps orders host;
    lists = list-Keeps orders;
  }

  products-Keeps : Keeps R (call list_active_products)
  unfolding list_active_products
  products-Keeps = Keeps-read orders.order list_active_products (λ t db. refl)

  ping-Keeps : Keeps R (call ping)
  unfolding ping
  ping-Keeps = Keeps-read orders.order ping (λ t db. refl)

  -- the dependencies that main wires
  pub router_deps-Keeps : (c : Config) → DepsKeep R (router_deps vault host canceled sdk c)
  unfolding router_deps
  router_deps-Keeps c = record {
    order = orders.order;
    accounts = auth-Keeps;
    orders = orders-Keeps c.app_frontend_url;
    lists = products-Keeps;
    handles = λ body signature.
        Keeps-bind webhook.order (handle sdk body signature) _
          (handle-Keeps webhook sdk built body signature)
          (λ outcome. Keeps-pure webhook.order (ok outcome));
    pings = ping-Keeps;
    finds_session = by_token_hash-Keeps accounts vault;
    touches = λ id expires. Keeps-call accounts.order _ (accounts.touch_session id expires);
    counter = rate_limit_store;
    limited = refl;
    counts = λ key start. Keeps-call accounts.order _ (accounts.count_request key start);
  }
