-- ===== src/Server/Recovery.antt =====
-- backend/internal/handler/auth.go, ForgotPassword, over the auth service.
use stripe_payment_integrati.Server.{auth_service}
use stripe_payment_integrati.Http.Handlers.Accounts.{forgot_password, message}
use stripe_payment_integrati.Http.Api.{
  write_json, write_body_too_large, write_error, write_service_error,
}
use stripe_payment_integrati.Auth.Recovery.{reset_requested, CanIssue, request-answer}
use stripe_payment_integrati.World.{World, pure, quietly}
use stripe_payment_integrati.Http.Handlers.{
  Decoded, Codec, answer, EmailRequest, with_body, invalid_json_body, serve,
}
use stripe_payment_integrati.Db.{Result, ok, err}
use stripe_payment_integrati.Auth.{Vault, request_password_reset}
use stripe_payment_integrati.Http.{Payload, Writer, Response, Request}
use stripe_payment_integrati.Prelude.{◌≡◌, refl, ◌∙◌, Bool, String, sym, ap}

abbrev reset_sent : Payload
reset_sent = message "If an account exists for that email, a reset link has been sent."

-- the response to a body that is read, by what the service answers
abbrev reply : Writer → Result (Unit {0}) → Response
reply wr (ok _) = write_json wr 200 reset_sent
reply wr (err e) = write_service_error wr e

replied :
    (wr : Writer) (x : Result (Unit {0})) (world : World)
    → (answer wr x (λ _. pure (write_json wr 200 reset_sent)) world).0 ≡ reply wr x
unfolding answer
replied wr (ok u) world = refl
replied wr (err e) world = refl

-- the response to a request
abbrev pub forgotten : Vault → Writer → Decoded EmailRequest → Response
forgotten vault wr (Decoded.decoded body) = reply wr (reset_requested vault body.email)
forgotten vault wr Decoded.too_large = write_body_too_large wr
forgotten vault wr Decoded.unreadable = write_error wr 400 "VALIDATION_ERROR" invalid_json_body

module _ (vault : Vault) (codec : Codec) (secure : Bool) (wr : Writer) (r : Request) where
  told :
      (d : Decoded EmailRequest) (w : World) (token : String)
      → codec.decode_email r.body ≡ d
      → CanIssue vault w token
      → (forgot_password codec (auth_service vault) secure wr r (quietly w)).0
        ≡ forgotten vault wr d
  unfolding forgot_password with_body serve
  told (Decoded.decoded body) w token read can = rw read (
      replied wr (request_password_reset vault body.email (quietly w)).0
        (request_password_reset vault body.email (quietly w)).1
      ∙ ap (reply wr) (request-answer vault body.email w token can))
  told Decoded.too_large w token read can = rw read refl
  told Decoded.unreadable w token read can = rw read refl

  -- Where nothing disturbs it and a token can be issued, POST /api/auth/forgot-password is answered by the
  -- request alone: from any two such stores, whoever their customers are, the answers are the same.
  pub forgot_password-TellsNothing :
      (w v : World) (token other : String)
      → CanIssue vault w token
      → CanIssue vault v other
      → (forgot_password codec (auth_service vault) secure wr r (quietly w)).0
        ≡ (forgot_password codec (auth_service vault) secure wr r (quietly v)).0
  forgot_password-TellsNothing w v token other can_w can_v =
      told (codec.decode_email r.body) w token refl can_w
      ∙ sym (told (codec.decode_email r.body) v other refl can_v)
