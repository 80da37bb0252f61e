-- ===== src/Server/Listing.antt =====
-- backend/internal/handler/orders.go, ListMine, and service/order.go, ListOrdersForUser, over a store that
-- the program has filled.
use stripe_payment_integrati.Db.Buckets.{increment_rate_limit_bucket}
use stripe_payment_integrati.Checkout.Access.Keeping.{list-Keeps}
use stripe_payment_integrati.Http.Middleware.Sessions.{for_session}
use stripe_payment_integrati.Checkout.Access.{list_orders_for_user}
use stripe_payment_integrati.World.Keeps.{Fair, Keeps-read_clock, Keeps-call}
use stripe_payment_integrati.Db.Accounts.{UserSession}
use stripe_payment_integrati.Http.Cookies.{
  user_from_context, session_token_from_request, set_session_cookie, with_user,
}
use stripe_payment_integrati.Http.Middleware.Sessions.{
  extend_session, require_user_session, session_sliding_ttl,
}
use stripe_payment_integrati.Http.Router.Wiring.{rate_limit, endpoint, limiter, for_users}
use stripe_payment_integrati.Http.Middleware.Limits.{
  let_through, Quota, Admission, rate_limit_by_ip_postgres,
}
use stripe_payment_integrati.Http.Handlers.Orders.{list_of, list_mine, listed}
use stripe_payment_integrati.Http.Handlers.{answer, serve}
use stripe_payment_integrati.Completion.Legality.{build_completion-Stamped}
use stripe_payment_integrati.Http.Api.{
  write_error, write_service_error, write_json, internal_error_message,
}
use stripe_payment_integrati.Db.Soundness.Events.{webhook_rules}
use stripe_payment_integrati.Db.Soundness.Orders.{order_rules}
use stripe_payment_integrati.Db.Soundness.Accounts.{account_rules}
use stripe_payment_integrati.World.{pure, World, call}
use stripe_payment_integrati.Server.Keeping.{router_deps-Keeps}
use stripe_payment_integrati.World.Ensures.{
  Ensures, Ensures-bind, Ensures-if, Ensures-then, Ensures-call,
}
use stripe_payment_integrati.Server.{
  router_deps, pure, rate_limit_store, call, increment_rate_limit_bucket,
}
use stripe_payment_integrati.Http.Router.Keeping.{DepsKeep, admit-Keeps}
use stripe_payment_integrati.Config.{Config}
use stripe_payment_integrati.Stripe.{Sdk}
use stripe_payment_integrati.Checkout.{Host}
use stripe_payment_integrati.Auth.{Vault}
use stripe_payment_integrati.Http.Router.{Libraries, RouterDeps, quota, Endpoint}
use stripe_payment_integrati.Prelude.{
  ◌==◌, String, ◌≡◌, refl, ◌⊎◌, none, some, List, [], ◌∷◌, ℕ, Bool, inl, Option, inr, ◌+◌,
}
use stripe_payment_integrati.Db.{Tables, Order, Result, Error, ok, err}
use stripe_payment_integrati.Db.Table.{filter_rows}
use stripe_payment_integrati.Db.Orders.{holds, list_orders_by_customer_id, latest_first}
use stripe_payment_integrati.Db.Soundness.{Sound, Every, OrderOk, StaysSound, StaysSound-preorder}
use stripe_payment_integrati.World.Yields.{OnOk}
use stripe_payment_integrati.Http.{Response, Payload, Content, Writer, Request, AuthUser}

-- no order is found under a customer
none_owned :
    (k : String) (orders : List Order)
    → Every OrderOk orders
    → filter_rows (λ o. holds k o.customer_id) orders ≡ []
unfolding filter_rows
none_owned k [] fine = refl
none_owned k (o ∷ orders) (here, fine) = rw here.unowned (none_owned k orders fine)

nothing_listed :
    (k : String) (t : ℕ) (db : Tables)
    → Sound db
    → OnOk (λ (l : List Order). l ≡ []) (list_orders_by_customer_id k 20 t db).0
unfolding list_orders_by_customer_id latest_first
nothing_listed k t db sound = rw (none_owned k db.orders sound.orders_ok) refl

-- An error, or the empty list.
abbrev pub ListsNothing : Response → Type 0
ListsNothing r = in_content r.content
  where
    in_content : Content → Type 0
    in_content (Content.json e) = (e.payload ≡ none) ⊎ (e.payload ≡ some (Payload.orders []))
    in_content (Content.text t) = ⊥

module _ (libs : Libraries) (vault : Vault) (host : Host) (canceled : ℕ → Bool) (sdk : Sdk)
    (config : Config) where
  abbrev deps : RouterDeps
  deps = router_deps vault host canceled sdk config

  keeps : DepsKeep StaysSound deps
  keeps =
      router_deps-Keeps webhook_rules order_rules account_rules vault host canceled sdk
        (build_completion-Stamped sdk) config

  -- an answer that shows no orders at all
  refused :
      (w : Writer) (status : ℕ) (code text : String)
      → Ensures Sound ListsNothing (pure (write_error w status code text))
  refused w status code text = record { at = λ world i fair. inl refl }

  failed : (w : Writer) (e : Error) → Ensures Sound ListsNothing (pure (write_service_error w e))
  unfolding write_service_error
  failed w (Error.app e) = refused w e.status e.code e.message
  failed w _ = refused w 500 "INTERNAL_ERROR" internal_error_message

  answered :
      (w : Writer) (res : Result (List Order))
      → OnOk (λ (l : List Order). l ≡ []) res
      → Ensures Sound ListsNothing
          (answer w res (λ rows. pure (write_json w 200 (listed libs.codec deps.orders rows))))
  unfolding answer
  answered w (ok rows) empty = record { at = λ world i fair. inr (rw empty refl) }
  answered w (err e) empty = failed w e

  found_by :
      (w : Writer) (u : Option AuthUser)
      → Ensures Sound ListsNothing (list_of libs.codec deps.orders w u)
  unfolding list_of serve router_deps list_orders_for_user
  found_by w none = refused w 401 "UNAUTHORIZED" "user session required"
  found_by w (some u) =
      Ensures-then (call (list_orders_by_customer_id u.id 20)) _ (list-Keeps order_rules u.id)
        (Ensures-call (λ (l : List Order). l ≡ []) (list_orders_by_customer_id u.id 20)
          (nothing_listed u.id))
        (answered w)

  mine :
      (w : Writer) (r : Request) → Ensures Sound ListsNothing (list_mine libs.codec deps.orders w r)
  unfolding list_mine
  mine w r = found_by w (user_from_context r)

  through :
      (q : Quota) (w : Writer) (r : Request) (a : Admission)
      → Ensures Sound ListsNothing
          (let_through libs.net rate_limit_store q (list_mine libs.codec deps.orders) w r a)
  unfolding let_through
  through q w r Admission.admitted = mine w r
  through q w r Admission.limited = record { at = λ world i fair. inl refl }
  through q w r Admission.uncounted =
      refused w 503 "RATE_LIMIT_UNAVAILABLE" "rate limit check failed"

  limited :
      (w : Writer) (r : Request)
      → Ensures Sound ListsNothing
          (rate_limit libs deps "auth-user" 60 (list_mine libs.codec deps.orders) w r)
  unfolding rate_limit limiter router_deps rate_limit_by_ip_postgres
  limited w r =
      Ensures-bind _ _
        (admit-Keeps StaysSound-preorder libs.net rate_limit_store
          (λ key start.
            Keeps-call StaysSound-preorder (increment_rate_limit_bucket key start)
              (account_rules.count_request key start))
          (quota "auth-user" 60) r.remote_addr)
        (through (quota "auth-user" 60) w r)

  looked_up :
      (w : Writer) (r : Request) (token : String) (found : Result (Option UserSession))
      → Ensures Sound ListsNothing (
          for_session libs.digest deps.sessions
            (rate_limit libs deps "auth-user" 60 (list_mine libs.codec deps.orders))
            w
            r
            token
            found)
  unfolding for_session extend_session
  looked_up w r token (err e) = refused w 503 "SESSION_UNAVAILABLE" "session check failed"
  looked_up w r token (ok none) = refused w 401 "UNAUTHORIZED" "invalid or expired session"
  looked_up w r token (ok (some s)) = Ensures-bind _ _ (Keeps-read_clock StaysSound-preorder) λ now.
      Ensures-bind _ _ (keeps.touches s.id (now + session_sliding_ttl)) λ dropped.
        Ensures-bind _ _ (Keeps-read_clock StaysSound-preorder) λ later.
          limited (set_session_cookie token later (now + session_sliding_ttl) r.tls w)
            (with_user (record { id = s.customer_id; email = s.email }) r)

  -- In a store that the program has filled, GET /api/orders/mine is answered with an error or with the
  -- empty list, whoever asks, whatever statements fail and whatever other processes do that keep a sound
  -- store sound: no order has a customer.
  pub orders_mine-ListsNothing :
      (w : Writer) (r : Request) (world : World)
      → Sound world.tables
      → Fair StaysSound world.schedule
      → ListsNothing (endpoint libs deps Endpoint.orders_mine w r world).0
  unfolding endpoint for_users require_user_session
  orders_mine-ListsNothing w r world sound fair =
      let token = session_token_from_request r in
      (Ensures-if (token == "") _ _ (refused w 401 "UNAUTHORIZED" "missing session")
          (Ensures-bind _ _ (keeps.finds_session (libs.digest token)) (looked_up w r token))).at
        world sound fair
