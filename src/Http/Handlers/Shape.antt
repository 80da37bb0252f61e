-- ===== src/Http/Handlers/Shape.antt =====
-- backend/internal/api/response.go: the envelope, in the answers of the handlers.
use stripe_payment_integrati.Http.Handlers.Orders.{
  checked_out, open_checkout, show_order, get_by_id, get_by_session, list_mine, list_of,
}
use stripe_payment_integrati.Http.Handlers.Webhooks.{
  write_webhook_outcome, stripe_webhook, record_webhook_metric, parse_webhook_event_type,
}
use stripe_payment_integrati.Http.Handlers.Accounts.{
  signed_in, register_account, log_in, log_out, me, forgot_password, change_forgotten_password,
  confirm_email, me_of,
}
use stripe_payment_integrati.Http.Cookies.{
  session_token_from_request, clear_session_cookie, user_from_context,
}
use stripe_payment_integrati.Http.Api.{write_error, write_json, write_service_error, counting}
use stripe_payment_integrati.Prelude.{
  ◌∷◌, [], ℕ, String, inl, inr, Bool, Option, none, some, List, Option-cases,
}
use stripe_payment_integrati.Db.{Order, OrderItem, Error, Result, ok, err}
use stripe_payment_integrati.World.{Run, Try, pure}
use stripe_payment_integrati.World.Yields.{Yields, Yields-bind}
use stripe_payment_integrati.Auth.{UserSessionResult}
use stripe_payment_integrati.Checkout.{CheckoutResult}
use stripe_payment_integrati.Webhook.{WebhookOutcome}
use stripe_payment_integrati.Http.{
  Writer, Request, Response, Handler, Content, Envelope, Payload, ErrorBody,
}
use stripe_payment_integrati.Http.Handlers.{
  Decoded, with_body, answer, serve, Codec, UserAuthenticator, invalid_json_body, OrderService,
  WebhookProcessor, read_all,
}

-- Data with a status of success and no error, or an error and no data.
pub data Enveloped : ℕ → Envelope → Type 0 where
  success : {p : Payload} → Enveloped 200 (record { payload = some p; error = none })
  created : {p : Payload} → Enveloped 201 (record { payload = some p; error = none })
  failure :
      {status : ℕ} {e : ErrorBody} → Enveloped status (record { payload = none; error = some e })

abbrev pub Shaped : Response → Type 0
Shaped r = in_content r.content
  where
    in_content : Content → Type 0
    in_content (Content.json e) = Enveloped r.status e
    in_content (Content.text t) = ⊥

abbrev pub HandlerShaped : Handler → Type 0
HandlerShaped h = (w : Writer) (r : Request) → Yields Shaped (h w r)

pub fails :
    (w : Writer) (status : ℕ) (code text : String)
    → Yields Shaped (pure (write_error w status code text))
fails w status code text = record { at = λ world. failure }

pub succeeds : (w : Writer) (p : Payload) → Yields Shaped (pure (write_json w 200 p))
succeeds w p = record { at = λ world. success }

creates : (w : Writer) (p : Payload) → Yields Shaped (pure (write_json w 201 p))
creates w p = record { at = λ world. created }

service-Shaped : (w : Writer) (e : Error) → Yields Shaped (pure (write_service_error w e))
unfolding write_service_error
service-Shaped w (Error.app e) = record { at = λ world. failure }
service-Shaped w _ = record { at = λ world. failure }

body-Shaped :
    {A : Type 0} (text : String) (b : Decoded A) (next : A → Handler)
    → ((a : A) → HandlerShaped (next a))
    → HandlerShaped (with_body text b next)
unfolding with_body
body-Shaped text (Decoded.decoded a) next h w r = h a w r
body-Shaped text Decoded.too_large next h w r = record { at = λ world. failure }
body-Shaped text Decoded.unreadable next h w r = record { at = λ world. failure }

answer-Shaped :
    {A : Type 0} (w : Writer) (res : Result A) (next : A → Run Response)
    → ((a : A) → Yields Shaped (next a))
    → Yields Shaped (answer w res next)
unfolding answer
answer-Shaped w (ok a) next h = h a
answer-Shaped w (err e) next h = service-Shaped w e

pub serve-Shaped :
    {A : Type 0} (w : Writer) (service : Try A) (next : A → Run Response)
    → ((a : A) → Yields Shaped (next a))
    → Yields Shaped (serve w service next)
unfolding serve
serve-Shaped w service next h = Yields-bind service _ (λ res. answer-Shaped w res next h)

module _ (codec : Codec) (service : UserAuthenticator) (secure : Bool) where
  signed_in-Shaped :
      (w : Writer) (result : UserSessionResult)
      → Yields Shaped (signed_in codec service secure w 201 result)
        × Yields Shaped (signed_in codec service secure w 200 result)
  unfolding signed_in
  signed_in-Shaped w result = (record { at = λ world. created }, record { at = λ world. success })

  pub register-Shaped : HandlerShaped (register_account codec service secure)
  unfolding register_account
  register-Shaped w r =
      body-Shaped invalid_json_body (codec.decode_credentials r.body) _
        (λ body w r.
          serve-Shaped w (service.register body.email body.password) _
            (λ result. (signed_in-Shaped w result).0))
        w r

  pub log_in-Shaped : HandlerShaped (log_in codec service secure)
  unfolding log_in
  log_in-Shaped w r =
      body-Shaped invalid_json_body (codec.decode_credentials r.body) _
        (λ body w r.
          serve-Shaped w (service.login body.email body.password) _
            (λ result. (signed_in-Shaped w result).1))
        w r

  pub log_out-Shaped : HandlerShaped (log_out codec service secure)
  unfolding log_out
  log_out-Shaped w r = Yields-bind (service.logout (session_token_from_request r)) _ (λ dropped.
      succeeds (clear_session_cookie secure w) (Payload.words (("status", "signed_out") ∷ [])))

  pub me-Shaped : HandlerShaped (me codec service secure)
  unfolding me me_of
  me-Shaped w r = elim (Option-cases (user_from_context r)) [
    | inl nobody ↦ rw nobody (fails w 401 "UNAUTHORIZED" "user session required")
    | inr (u, known) ↦ rw known (serve-Shaped w (service.get_user u.id) _ (λ user. succeeds w _))
  ]

  pub forgot-Shaped : HandlerShaped (forgot_password codec service secure)
  unfolding forgot_password
  forgot-Shaped w r =
      body-Shaped invalid_json_body (codec.decode_email r.body) _
        (λ body w r.
          serve-Shaped w (service.request_password_reset body.email) _ (λ _. succeeds w _))
        w r

  pub reset-Shaped : HandlerShaped (change_forgotten_password codec service secure)
  unfolding change_forgotten_password
  reset-Shaped w r =
      body-Shaped invalid_json_body (codec.decode_reset r.body) _
        (λ body w r.
          serve-Shaped w (service.reset_password body.token body.password) _ (λ _. succeeds w _))
        w r

  pub verify-Shaped : HandlerShaped (confirm_email codec service secure)
  unfolding confirm_email
  verify-Shaped w r =
      body-Shaped invalid_json_body (codec.decode_verify r.body) _
        (λ body w r. serve-Shaped w (service.verify_email body.token) _ (λ _. succeeds w _)) w r

module _ (codec : Codec) (service : OrderService) where
  counted-Shaped :
      (w : Writer) (res : Result CheckoutResult) → Yields Shaped (checked_out codec service w res)
  unfolding checked_out answer write_service_error
  counted-Shaped w (ok a) = record { at = λ world. created }
  counted-Shaped w (err (Error.app e)) = record { at = λ world. failure }
  counted-Shaped w (err _) = record { at = λ world. failure }

  pub open-Shaped : HandlerShaped (open_checkout codec service)
  unfolding open_checkout
  open-Shaped w r =
      body-Shaped invalid_json_body (codec.decode_checkout r.body) _
        (λ input w r.
          Yields-bind (service.create_checkout_session (r.header "Idempotency-Key") input) _
            (counted-Shaped w))
        w r

  show-Shaped :
      (w : Writer) (found : Option (Order × List OrderItem))
      → Yields Shaped (show_order codec service w found)
  unfolding show_order
  show-Shaped w none = record { at = λ world. failure }
  show-Shaped w (some found) = record { at = λ world. success }

  pub by_id-Shaped : HandlerShaped (get_by_id codec service)
  unfolding get_by_id
  by_id-Shaped w r =
      serve-Shaped w (service.get_order (r.param "id") (r.header "X-Order-Token")) _ (show-Shaped w)

  pub by_session-Shaped : HandlerShaped (get_by_session codec service)
  unfolding get_by_session
  by_session-Shaped w r =
      serve-Shaped w (service.get_order_by_session (r.param "sessionId") (r.header "X-Order-Token"))
        _ (show-Shaped w)

  pub list-Shaped : HandlerShaped (list_mine codec service)
  unfolding list_mine list_of
  list-Shaped w r = elim (Option-cases (user_from_context r)) [
    | inl nobody ↦ rw nobody (fails w 401 "UNAUTHORIZED" "user session required")
    | inr (u, known) ↦
        rw known (serve-Shaped w (service.list_orders_for_user u.id) _ (λ rows. succeeds w _))
  ]

outcome-Shaped :
    (w : Writer) (t : String) (o : WebhookOutcome)
    → Yields Shaped (pure (counting (record_webhook_metric t o) (write_webhook_outcome w o)))
unfolding write_webhook_outcome
outcome-Shaped w t WebhookOutcome.invalid_signature = record { at = λ world. failure }
outcome-Shaped w t WebhookOutcome.acknowledged = record { at = λ world. success }
outcome-Shaped w t WebhookOutcome.retry_later = record { at = λ world. failure }
outcome-Shaped w t WebhookOutcome.processing_failed = record { at = λ world. failure }

pub hook-Shaped :
    (codec : Codec) (service : WebhookProcessor) → HandlerShaped (stripe_webhook codec service)
unfolding stripe_webhook
hook-Shaped codec service w r =
    body-Shaped "failed to read body" (read_all r.body) _
      (λ body w r.
        serve-Shaped w (service.handle body (r.header "Stripe-Signature")) _
          (outcome-Shaped w (parse_webhook_event_type codec service body)))
      w r
