-- ===== src/Http/Handlers/Keeping.antt =====
-- A handler keeps every relation between tables that the services it calls keep.
use stripe_payment_integrati.Http.Cookies.{
  user_from_context, session_token_from_request, clear_session_cookie,
}
use stripe_payment_integrati.Http.Api.{write_json, counting}
use stripe_payment_integrati.Http.Handlers.Accounts.{
  signed_in, register_account, log_in, log_out, me_of, me, forgot_password,
  change_forgotten_password, confirm_email,
}
use stripe_payment_integrati.Http.Handlers.Webhooks.{stripe_webhook}
use stripe_payment_integrati.Http.Handlers.Catalog.{list_catalog, ready, readiness}
use stripe_payment_integrati.Http.Handlers.Orders.{
  checked_out, open_checkout, show_order, get_by_id, get_by_session, list_of, list_mine,
  record_checkout_outcome,
}
use stripe_payment_integrati.Prelude.{◌∷◌, [], String, Option, none, some, List, Bool, ℕ}
use stripe_payment_integrati.Db.{Tables, Order, OrderItem, Result, ok, err}
use stripe_payment_integrati.World.{Run, Try, pure}
use stripe_payment_integrati.World.Keeps.{Preorder, Keeps, Keeps-pure, Keeps-bind}
use stripe_payment_integrati.Auth.{UserSessionResult}
use stripe_payment_integrati.Checkout.{CreateCheckoutInput, CheckoutResult}
use stripe_payment_integrati.Http.{Writer, Request, Response, Handler, AuthUser, Bool, ℕ, Payload}
use stripe_payment_integrati.Http.Handlers.{
  Codec, UserAuthenticator, OrderService, WebhookProcessor, ProductCatalog, HealthStore, Decoded,
  with_body, answer, serve, invalid_json_body, read_all,
}

pub record AccountsKeep (R : Tables → Tables → Type 0) (service : UserAuthenticator) : Type 0 where
  pub registers : (email password : String) → Keeps R (service.register email password)
  pub logs_in : (email password : String) → Keeps R (service.login email password)
  pub logs_out : (token : String) → Keeps R (service.logout token)
  pub gets_user : (id : String) → Keeps R (service.get_user id)
  pub requests_reset : (email : String) → Keeps R (service.request_password_reset email)
  pub resets : (token password : String) → Keeps R (service.reset_password token password)
  pub verifies : (token : String) → Keeps R (service.verify_email token)

pub record OrdersKeep (R : Tables → Tables → Type 0) (service : OrderService) : Type 0 where
  pub checks_out :
      (key : String) (input : CreateCheckoutInput)
      → Keeps R (service.create_checkout_session key input)
  pub gets : (id token : String) → Keeps R (service.get_order id token)
  pub gets_by_session : (id token : String) → Keeps R (service.get_order_by_session id token)
  pub lists : (customer : String) → Keeps R (service.list_orders_for_user customer)

abbrev pub HandlerKeeps : (Tables → Tables → Type 0) → Handler → Type 0
HandlerKeeps R h = (w : Writer) (r : Request) → Keeps R (h w r)

module _ {R : Tables → Tables → Type 0} (order : Preorder R) where
  body-Keeps :
      {A : Type 0} (text : String) (b : Decoded A) (next : A → Handler)
      → ((a : A) → HandlerKeeps R (next a))
      → HandlerKeeps R (with_body text b next)
  unfolding with_body
  body-Keeps text (Decoded.decoded a) next keeps w r = keeps a w r
  body-Keeps text Decoded.too_large next keeps w r = Keeps-pure order _
  body-Keeps text Decoded.unreadable next keeps w r = Keeps-pure order _

  answer-Keeps :
      {A : Type 0} (w : Writer) (res : Result A) (next : A → Run Response)
      → ((a : A) → Keeps R (next a))
      → Keeps R (answer w res next)
  unfolding answer
  answer-Keeps w (ok a) next keeps = keeps a
  answer-Keeps w (err e) next keeps = Keeps-pure order _

  serve-Keeps :
      {A : Type 0} (w : Writer) (service : Try A) (next : A → Run Response)
      → Keeps R service
      → ((a : A) → Keeps R (next a))
      → Keeps R (serve w service next)
  unfolding serve
  serve-Keeps w service next first keeps =
      Keeps-bind order service _ first (λ res. answer-Keeps w res next keeps)

  writes :
      {A : Type 0} (w : Writer) (service : Try A) (f : A → Response)
      → Keeps R service
      → Keeps R (serve w service (λ a. pure (f a)))
  writes w service f first = serve-Keeps w service _ first (λ a. Keeps-pure order (f a))

  module _ (codec : Codec) (service : UserAuthenticator) (secure : Bool)
      (keeps : AccountsKeep R service) where
    signed_in-Keeps :
        (w : Writer) (status : ℕ) (result : UserSessionResult)
        → Keeps R (signed_in codec service secure w status result)
    unfolding signed_in
    signed_in-Keeps w status result = record {
      at = λ world fair. (order.refl_at world.tables, fair);
    }

    pub register_account-Keeps : HandlerKeeps R (register_account codec service secure)
    unfolding register_account
    register_account-Keeps w r =
        body-Keeps invalid_json_body (codec.decode_credentials r.body) _
          (λ body w r.
            serve-Keeps w _ _ (keeps.registers body.email body.password) (signed_in-Keeps w 201))
          w r

    pub log_in-Keeps : HandlerKeeps R (log_in codec service secure)
    unfolding log_in
    log_in-Keeps w r =
        body-Keeps invalid_json_body (codec.decode_credentials r.body) _
          (λ body w r.
            serve-Keeps w _ _ (keeps.logs_in body.email body.password) (signed_in-Keeps w 200))
          w r

    pub log_out-Keeps : HandlerKeeps R (log_out codec service secure)
    unfolding log_out
    log_out-Keeps w r =
        Keeps-bind order _ _ (keeps.logs_out (session_token_from_request r)) (λ dropped.
          Keeps-pure order (
            write_json (clear_session_cookie secure w) 200
              (Payload.words (("status", "signed_out") ∷ []))))

    me_of-Keeps : (w : Writer) (u : Option AuthUser) → Keeps R (me_of codec service secure w u)
    unfolding me_of
    me_of-Keeps w none = Keeps-pure order _
    me_of-Keeps w (some session) = writes w _ _ (keeps.gets_user session.id)

    pub me-Keeps : HandlerKeeps R (me codec service secure)
    unfolding me
    me-Keeps w r = me_of-Keeps w (user_from_context r)

    pub forgot_password-Keeps : HandlerKeeps R (forgot_password codec service secure)
    unfolding forgot_password
    forgot_password-Keeps w r =
        body-Keeps invalid_json_body (codec.decode_email r.body) _
          (λ body w r. writes w _ _ (keeps.requests_reset body.email)) w r

    pub change_forgotten_password-Keeps :
        HandlerKeeps R (change_forgotten_password codec service secure)
    unfolding change_forgotten_password
    change_forgotten_password-Keeps w r =
        body-Keeps invalid_json_body (codec.decode_reset r.body) _
          (λ body w r. writes w _ _ (keeps.resets body.token body.password)) w r

    pub confirm_email-Keeps : HandlerKeeps R (confirm_email codec service secure)
    unfolding confirm_email
    confirm_email-Keeps w r =
        body-Keeps invalid_json_body (codec.decode_verify r.body) _
          (λ body w r. writes w _ _ (keeps.verifies body.token)) w r

  module _ (codec : Codec) (service : OrderService) (keeps : OrdersKeep R service) where
    checked_out-Keeps :
        (w : Writer) (res : Result CheckoutResult) → Keeps R (checked_out codec service w res)
    unfolding checked_out
    checked_out-Keeps w res =
        Keeps-bind order _ _
          (answer-Keeps w res _ (λ a. Keeps-pure order (write_json w 201 (Payload.checkout a))))
          (λ response.
            Keeps-pure order (counting (record_checkout_outcome codec service res) response))

    pub open_checkout-Keeps : HandlerKeeps R (open_checkout codec service)
    unfolding open_checkout
    open_checkout-Keeps w r =
        body-Keeps invalid_json_body (codec.decode_checkout r.body) _
          (λ input w r.
            Keeps-bind order _ _ (keeps.checks_out (r.header "Idempotency-Key") input)
              (checked_out-Keeps w))
          w r

    show_order-Keeps :
        (w : Writer) (found : Option (Order × List OrderItem))
        → Keeps R (show_order codec service w found)
    unfolding show_order
    show_order-Keeps w none = Keeps-pure order _
    show_order-Keeps w (some found) = Keeps-pure order _

    pub get_by_id-Keeps : HandlerKeeps R (get_by_id codec service)
    unfolding get_by_id
    get_by_id-Keeps w r =
        serve-Keeps w _ _ (keeps.gets (r.param "id") (r.header "X-Order-Token"))
          (show_order-Keeps w)

    pub get_by_session-Keeps : HandlerKeeps R (get_by_session codec service)
    unfolding get_by_session
    get_by_session-Keeps w r =
        serve-Keeps w _ _ (keeps.gets_by_session (r.param "sessionId") (r.header "X-Order-Token"))
          (show_order-Keeps w)

    list_of-Keeps : (w : Writer) (u : Option AuthUser) → Keeps R (list_of codec service w u)
    unfolding list_of
    list_of-Keeps w none = Keeps-pure order _
    list_of-Keeps w (some session) = writes w _ _ (keeps.lists session.id)

    pub list_mine-Keeps : HandlerKeeps R (list_mine codec service)
    unfolding list_mine
    list_mine-Keeps w r = list_of-Keeps w (user_from_context r)

  pub list_catalog-Keeps :
      (service : ProductCatalog)
      → Keeps R service.list_products
      → HandlerKeeps R (list_catalog service)
  unfolding list_catalog
  list_catalog-Keeps service keeps w r = writes w _ _ keeps

  pub ready-Keeps : (store : HealthStore) → Keeps R store.ping → HandlerKeeps R (ready store)
  unfolding ready
  ready-Keeps store keeps w r =
      Keeps-bind order store.ping _ keeps (λ res. Keeps-pure order (readiness w res))

  pub stripe_webhook-Keeps :
      (codec : Codec) (service : WebhookProcessor)
      → ((body signature : String) → Keeps R (service.handle body signature))
      → HandlerKeeps R (stripe_webhook codec service)
  unfolding stripe_webhook
  stripe_webhook-Keeps codec service keeps w r =
      body-Keeps "failed to read body" (read_all r.body) _
        (λ body w r. writes w _ _ (keeps body (r.header "Stripe-Signature"))) w r
