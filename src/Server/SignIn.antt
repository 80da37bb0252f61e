-- ===== src/Server/SignIn.antt =====
-- backend/internal/handler/auth.go and backend/internal/middleware/session.go over the auth service: a
-- client's session cookie from its login to its logout.
pub mod Sliding
use stripe_payment_integrati.Http.Api.{write_json, write_error}
use stripe_payment_integrati.Http.Cookies.{
  session_token_from_request, set_session_cookie, clear_session_cookie,
}
use stripe_payment_integrati.Server.{auth_service}
use stripe_payment_integrati.Http.Middleware.Sessions.{require_user_session, for_session}
use stripe_payment_integrati.Http.Handlers.Accounts.{log_in, signed_in, log_out}
use stripe_payment_integrati.Prelude.{
  ℕ, ◌+◌, String, ◌==◌, ◌≡◌, refl, Bool, true, false, some, ltb, [], ◌∷◌,
}
use stripe_payment_integrati.Db.{Customer, ok}
use stripe_payment_integrati.Db.Accounts.{get_user_session_by_token_hash}
use stripe_payment_integrati.World.{World, quietly, call}
use stripe_payment_integrati.Auth.{Vault, user_session_ttl, to_user_profile}
use stripe_payment_integrati.Auth.Sessions.{
  LogsIn, logged_in, logs_in, own, logged_out, ended, logs_out,
}
use stripe_payment_integrati.Http.{Writer, Request, Payload}
use stripe_payment_integrati.Http.Handlers.{Codec, Decoded, with_body, serve, answer}
use stripe_payment_integrati.Server.SignIn.Sliding.{
  ask_me, shows_me, slides, extended, session_after,
}

module _ (vault : Vault) (email password : String) (w : World) (e p : String) (c : Customer)
    (token : String) (l : LogsIn vault email password w e p c token) (codec : Codec)
    (secure : Bool) where
  signs_in :
      (wr : Writer) (r : Request)
      → codec.decode_credentials r.body
        ≡ Decoded.decoded (record { email = email; password = password })
      → log_in codec (auth_service vault) secure wr r (quietly w) ≡ (
        write_json (set_session_cookie token w.clock (w.clock + user_session_ttl) secure wr) 200 (
            Payload.account (record {
              expires_at = codec.format_time (w.clock + user_session_ttl);
              user = to_user_profile c;
            })),
        logged_in vault email password w e p c token,
      )
  unfolding log_in with_body serve answer signed_in
  signs_in wr r body = rw (body, logs_in vault email password w e p c token l) refl

  signs_out :
      (wr : Writer) (r : Request) (t : ℕ)
      → r.cookie "session" ≡ some token
      → ltb t (w.clock + user_session_ttl) ≡ true
      → log_out codec
          (auth_service vault)
          secure
          wr
          r
          (record (logged_in vault email password w e p c token) { clock = t })
        ≡ (
          write_json
              (clear_session_cookie secure wr)
              200
              (Payload.words (("status", "signed_out") ∷ [])),
          logged_out vault email password w e p c token l t,
        )
  unfolding log_out session_token_from_request
  signs_out wr r t cookie live =
      rw (cookie, logs_out vault email password w e p c token l t live) refl

  -- After the logout at `t` the cookie shows nobody.
  is_out :
      (wr : Writer) (r : Request) (t now : ℕ)
      → r.cookie "session" ≡ some token
      → let world = record (logged_out vault email password w e p c token l t) { clock = now } in
        ask_me vault email password w e p c token l codec secure wr r world
        ≡ (write_error wr 401 "UNAUTHORIZED" "invalid or expired session", world)
  unfolding require_user_session session_token_from_request for_session call
      get_user_session_by_token_hash
  is_out wr r t now cookie =
      rw (cookie, l.some_token, ended vault email password w e p c token l t now) refl

  -- A client whose requests carry its credentials and, later, its cookie.
  pub record Client (login_request request : Request) : Type 0 where
    pub sends_credentials :
        codec.decode_credentials login_request.body
        ≡ Decoded.decoded (record { email = email; password = password })
    pub sends_cookie : request.cookie "session" ≡ some token
    pub named : (c.id == "") ≡ false
    pub reachable : (c.email == "") ≡ false

  -- An undisturbed login with the credentials of a stored customer sets a cookie for seven days. A request
  -- with the cookie at a time `t` before its end is answered with the customer and sets the cookie anew,
  -- marked secure where the request's own connection is; from then on the session ends seven days after
  -- `t`. A logout at `t` in its place clears the cookie, and every later request with it is refused.
  pub sign-in_out :
      (wr : Writer) (login_request r : Request) (t : ℕ)
      → Client login_request r
      → ltb t (w.clock + user_session_ttl) ≡ true
      → (log_in codec (auth_service vault) secure wr login_request (quietly w) ≡ (
        write_json (set_session_cookie token w.clock (w.clock + user_session_ttl) secure wr) 200 (
            Payload.account (record {
              expires_at = codec.format_time (w.clock + user_session_ttl);
              user = to_user_profile c;
            })),
        logged_in vault email password w e p c token,
      ))
        × (ask_me vault email password w e p c token l codec secure wr r
              (record (logged_in vault email password w e p c token) { clock = t })
            ≡ (
              write_json
                  (set_session_cookie token t (t + user_session_ttl) r.tls wr)
                  200
                  (Payload.profile (to_user_profile c)),
              extended vault email password w e p c token t,
            ))
        × ((now : ℕ)
            → (get_user_session_by_token_hash
                (vault.digest token)
                now
                (extended vault email password w e p c token t).tables).0
              ≡ ok (session_after vault email password w e p c token t now))
        × (log_out codec
              (auth_service vault)
              secure
              wr
              r
              (record (logged_in vault email password w e p c token) { clock = t })
            ≡ (
              write_json
                  (clear_session_cookie secure wr)
                  200
                  (Payload.words (("status", "signed_out") ∷ [])),
              logged_out vault email password w e p c token l t,
            ))
        × ((now : ℕ)
            → let world = record (logged_out vault email password w e p c token l t) {
              clock = now;
            } in
              ask_me vault email password w e p c token l codec secure wr r world
              ≡ (write_error wr 401 "UNAUTHORIZED" "invalid or expired session", world))
  sign-in_out wr login_request r t client live = (
    signs_in wr login_request client.sends_credentials,
    shows_me vault email password w e p c token l codec secure wr r t client.sends_cookie
        client.named client.reachable live,
    slides vault email password w e p c token l codec secure t,
    signs_out wr r t client.sends_cookie live,
    (λ now. is_out wr r t now client.sends_cookie),
  )
