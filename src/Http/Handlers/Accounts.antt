-- ===== src/Http/Handlers/Accounts.antt =====
-- backend/internal/handler/auth.go.
use stripe_payment_integrati.Prelude.{◌∷◌, [], String, Bool, Option, none, some, ℕ}
use stripe_payment_integrati.World.{Run, pure, bind, read_clock}
use stripe_payment_integrati.Auth.{UserSessionResult}
use stripe_payment_integrati.Http.{Writer, Response, Handler, AuthUser, Payload, ℕ}
use stripe_payment_integrati.Http.Api.{write_json, write_error}
use stripe_payment_integrati.Http.Cookies.{
  set_session_cookie, clear_session_cookie, session_token_from_request, user_from_context,
}
use stripe_payment_integrati.Http.Handlers.{
  Codec, UserAuthenticator, with_body, serve, invalid_json_body,
}

abbrev pub message : String → Payload
message text = Payload.words (("message", text) ∷ [])

module _ (codec : Codec) (service : UserAuthenticator) (secure_cookies : Bool) where
  unfoldable pub signed_in : Writer → ℕ → UserSessionResult → Run Response
  signed_in w status result = bind read_clock λ now. pure (
      write_json (set_session_cookie result.session_token now result.expires_at secure_cookies w)
        status
        (Payload.account
          (record { expires_at = codec.format_time result.expires_at; user = result.user })))

  unfoldable pub register_account : Handler
  register_account w r =
      with_body invalid_json_body (codec.decode_credentials r.body)
        (λ body w r. serve w (service.register body.email body.password) (signed_in w 201)) w r

  unfoldable pub log_in : Handler
  log_in w r =
      with_body invalid_json_body (codec.decode_credentials r.body)
        (λ body w r. serve w (service.login body.email body.password) (signed_in w 200)) w r

  -- The error of the service is dropped.
  unfoldable pub log_out : Handler
  log_out w r = bind (service.logout (session_token_from_request r)) λ dropped. pure (
      write_json (clear_session_cookie secure_cookies w) 200
        (Payload.words (("status", "signed_out") ∷ [])))

  unfoldable pub me_of : Writer → Option AuthUser → Run Response
  me_of w none = pure (write_error w 401 "UNAUTHORIZED" "user session required")
  me_of w (some session) =
      serve w (service.get_user session.id) λ user. pure (write_json w 200 (Payload.profile user))

  unfoldable pub me : Handler
  unfolding me_of
  me w r = me_of w (user_from_context r)

  unfoldable pub forgot_password : Handler
  forgot_password w r =
      with_body invalid_json_body (codec.decode_email r.body)
        (λ body w r. serve w (service.request_password_reset body.email) λ _. pure (
          write_json w 200
            (message "If an account exists for that email, a reset link has been sent.")))
        w r

  unfoldable pub change_forgotten_password : Handler
  change_forgotten_password w r =
      with_body invalid_json_body (codec.decode_reset r.body)
        (λ body w r.
          serve w (service.reset_password body.token body.password)
            λ _. pure (write_json w 200 (message "password updated")))
        w r

  unfoldable pub confirm_email : Handler
  confirm_email w r =
      with_body invalid_json_body (codec.decode_verify r.body)
        (λ body w r.
          serve w (service.verify_email body.token)
            λ _. pure (write_json w 200 (message "email verified")))
        w r
