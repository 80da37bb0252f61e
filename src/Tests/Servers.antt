-- ===== src/Tests/Servers.antt =====
-- The server with stand-ins for the libraries, and the theorems on it at concrete requests.
use stripe_payment_integrati.Domain.{OrderStatus}
use stripe_payment_integrati.Config.Production.{Acceptable, candidate, load_iff}
use stripe_payment_integrati.Http.Middleware.Limits.Bound.{admitted_in, attempts, attempts-bound}
use stripe_payment_integrati.Http.Router.Shape.{endpoint-Shaped}
use stripe_payment_integrati.Server.Cleanup.{Swept, cleanup-Swept}
use stripe_payment_integrati.Http.Middleware.Limits.Counting.{
  CountedOnce, table_counter, admit-CountedOnce,
}
use stripe_payment_integrati.Db.Table.{find_row}
use stripe_payment_integrati.Http.Middleware.Limits.{Quota, admit}
use stripe_payment_integrati.Http.Handlers.Shape.{Shaped}
use stripe_payment_integrati.Server.{router_deps, run_stale_order_cleanup}
use stripe_payment_integrati.Http.Router.Wiring.{endpoint}
use stripe_payment_integrati.Server.Listing.{ListsNothing, orders_mine-ListsNothing}
use stripe_payment_integrati.Db.Soundness.{Sound, StaysSound}
use stripe_payment_integrati.Server.History.{Task, perform_all, perform_all-Sound, no_rows-Sound}
use stripe_payment_integrati.World.Keeps.{Fair}
use stripe_payment_integrati.Prelude.{
  ◌≡◌, ◌↔◌, ℕ, String, ◌==◌, Bool, true, false, none, some, List, [], ◌∷◌, if◌then◌else◌, refl, ◌≤◌,
  arith, inr,
}
use stripe_payment_integrati.Db.{no_rows, Order}
use stripe_payment_integrati.World.{World, Moment, Fault, pure, quietly}
use stripe_payment_integrati.Config.{
  Config, Environment, load, get_env, read_config, with_dev_secret, contains, accepted,
}
use stripe_payment_integrati.Http.{Request, Response, Writer, Content, fresh_writer}
use stripe_payment_integrati.Http.Handlers.{Codec, Decoded, CredentialsRequest}
use stripe_payment_integrati.Http.Router.{Libraries, Routed, Endpoint}
use stripe_payment_integrati.Tests.{world_of, shop, test_sdk, lamp, order_in, OrderStatus}
use stripe_payment_integrati.Tests.Accounts.{vault}

abbrev pub credentials : CredentialsRequest
credentials = record { email = " a@b.c"; password = "password" }

abbrev pub codec : Codec
codec = record {
  decode_credentials = λ b. Decoded.decoded credentials;
  decode_email = λ b. Decoded.decoded (record { email = b.content });
  decode_reset = λ b. Decoded.decoded (record { token = b.content; password = "new password" });
  decode_verify = λ b. Decoded.decoded (record { token = b.content });
  decode_checkout = λ b. Decoded.unreadable;
  event_type = λ b. some "checkout.session.completed";
  to_lower = λ s. s;
  format_time = λ t. "2026-06-10T12:00:00Z";
}

abbrev find_path : String → String → Routed
find_path method path =
    if path == "/api/orders/mine"
    then Routed.matched Endpoint.orders_mine (λ k. "")
    else if path == "/api/auth/register"
    then Routed.matched Endpoint.auth_register (λ k. "")
    else if path == "/api/webhooks/stripe"
    then Routed.matched Endpoint.webhooks_stripe (λ k. "")
    else Routed.no_route

abbrev plain : ℕ → Writer → Response
plain status w = record {
  status = status;
  headers = w.headers;
  cookies = w.cookies;
  content = Content.text "";
  counts = [];
}

abbrev pub libs : Libraries
libs = record {
  codec = codec;
  net = record { split_host_port = λ a. some "10.0.0.1"; itoa = λ n. "60" };
  digest = λ s. if s == "token" then "digest" else "other";
  over = λ q r. pure false;
  real_ip = λ r. r;
  find = λ registered method path. find_path method path;
  not_found = plain 404;
  method_not_allowed = plain 405;
  cors = λ origin next. next;
  instrument = λ name keep next. next;
  exposition = "# HELP";
}

abbrev pub config : Config
config = record {
  env = "production";
  port = "8080";
  cors_origin = "https://shop.example";
  app_frontend_url = "https://shop.example";
  stripe_secret_key = "sk_live_1";
  stripe_webhook_secret = "whsec_1";
  stripe_api_version = "2026-05-27.dahlia";
  database_url = "postgresql://db/stripe_payment";
  auth_jwt_secret = "a long secret";
  metrics_enabled = true;
  metrics_api_key = "key";
  ignore_stripe_api_version_mismatch = false;
  otel_exporter_otlp_endpoint = "";
  otel_service_name = "stripe-payment-api";
}

abbrev pub patient : ℕ → Bool
patient n = false

-- a request with the session cookie "token"
abbrev pub ask : String → String → Request
ask method path = record {
  method = method;
  path = path;
  header = λ name. if name == "Stripe-Signature" then "good" else "";
  cookie = λ name. some "token";
  param = λ name. "";
  remote_addr = "10.0.0.1:5000";
  tls = false;
  body = record { content = "{}"; intact = true; limit = none };
  user = none;
  request_id = none;
}

-- the second statement loses its reply
abbrev lossy : List Moment
lossy =
    record { elapsed = 1; others = λ t db. db; fault = Fault.up }
    ∷ record { elapsed = 1; others = λ t db. db; fault = Fault.reply_lost }
    ∷ []

abbrev lossy_world : World
lossy_world = world_of no_rows lossy

lossy-Fair : Fair StaysSound lossy
lossy-Fair = ((λ now db s. s), ((λ now db s. s), tt))

abbrev day : List Task
day =
    Task.seeding (lamp ∷ [])
    ∷ Task.request (ask "POST" "/api/auth/register")
    ∷ Task.request (ask "POST" "/api/webhooks/stripe")
    ∷ Task.cleanup 2
    ∷ []

perform_all-Sound_example :
    Sound (perform_all libs vault shop patient test_sdk config day lossy_world).1.tables
perform_all-Sound_example =
    perform_all-Sound libs vault shop patient test_sdk config day lossy_world no_rows-Sound
      lossy-Fair

orders_mine-ListsNothing_example :
    ListsNothing
      (endpoint libs
        (router_deps vault shop patient test_sdk config)
        Endpoint.orders_mine
        fresh_writer
        (ask "GET" "/api/orders/mine")
        lossy_world).0
orders_mine-ListsNothing_example =
    orders_mine-ListsNothing libs vault shop patient test_sdk config fresh_writer
      (ask "GET" "/api/orders/mine") lossy_world no_rows-Sound lossy-Fair

endpoint-Shaped_example :
    Shaped
      (endpoint libs
        (router_deps vault shop patient test_sdk config)
        Endpoint.auth_register
        fresh_writer
        (ask "POST" "/api/auth/register")
        lossy_world).0
endpoint-Shaped_example =
    endpoint-Shaped libs (router_deps vault shop patient test_sdk config) Endpoint.auth_register
      fresh_writer (ask "POST" "/api/auth/register") lossy_world refl

-- a limit of two requests in ten nanoseconds
abbrev two : Quota
two = record { name = "two"; limit = 2; window = 10 }

-- another server counts a request before the second one, whose reply is lost
abbrev busy : List Moment
busy =
    record { elapsed = 1; others = λ t db. db; fault = Fault.up }
    ∷ record { elapsed = 1; others = λ t db. db; fault = Fault.reply_lost }
    ∷ []

attempts-bound_example :
    admitted_in 100 (attempts libs.net two "10.0.0.1:5000" 4 (world_of no_rows busy)).0 ≤ 2
unfolding find_row
attempts-bound_example =
    attempts-bound libs.net two "10.0.0.1:5000" 4 100 (world_of no_rows busy)
      ((λ now db. ground arith), ((λ now db. ground arith), tt))

admit-CountedOnce_example :
    CountedOnce libs.net two "10.0.0.1:5000" lossy_world
      (admit libs.net table_counter two "10.0.0.1:5000" (quietly lossy_world))
admit-CountedOnce_example = admit-CountedOnce libs.net two "10.0.0.1:5000" lossy_world

-- the variables of a server in production
abbrev environment : Environment
environment = λ name.
    if name == "ENV"
    then "production"
    else if name == "CORS_ORIGIN"
    then "https://shop.example"
    else if name == "APP_FRONTEND_URL"
    then "https://shop.example"
    else if name == "STRIPE_SECRET_KEY"
    then "sk_live_1"
    else if name == "DATABASE_URL"
    then "postgresql://db/stripe_payment"
    else if name == "METRICS_API_KEY"
    then "key"
    else "secret"

load_iff_example :
    (load (λ os. os) environment ≡ accepted (candidate (λ os. os) environment))
    ↔ Acceptable (λ os. os) environment
load_iff_example = load_iff (λ os. os) environment

production_starts : Acceptable (λ os. os) environment
unfolding get_env read_config with_dev_secret contains
production_starts = record {
  stripe_key = refl;
  webhook_secret = refl;
  fit = inr (record {
    public_origin = refl;
    https_frontend = refl;
    encrypted_database = refl;
    live_key = refl;
    own_secret = refl;
    guarded_metrics = refl;
  });
}

-- One checkout was never opened, one is new, one is open, and one is paid.
abbrev abandoned : Order
abandoned = record (order_in OrderStatus.pending none) { session_id = none; created_at = 0 }

abbrev swept_world : World
swept_world =
    record (world_of
      (record no_rows {
        orders =
            abandoned
            ∷ record abandoned { id = "new"; created_at = 1999000000000 }
            ∷ record (order_in OrderStatus.pending none) { id = "open" }
            ∷ record abandoned { id = "paid"; status = OrderStatus.paid }
            ∷ [];
      })
      []) { clock = 2000000000000 }

cleanup-Swept_example : Swept swept_world (run_stale_order_cleanup 1 (quietly swept_world)).1
cleanup-Swept_example = cleanup-Swept swept_world
