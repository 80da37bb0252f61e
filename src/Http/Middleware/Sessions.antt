-- ===== src/Http/Middleware/Sessions.antt =====
-- backend/internal/middleware/session.go and jwt.go; backend/internal/auth/jwt.go.
use stripe_payment_integrati.Prelude.{
  ℕ, ◌+◌, String, ◌==◌, ◌||◌, not, Option, none, some, if◌then◌else◌, starts_with,
}
use stripe_payment_integrati.Db.{Result, ok, err}
use stripe_payment_integrati.Db.Accounts.{UserSession}
use stripe_payment_integrati.World.{Run, Try, pure, bind, read_clock}
use stripe_payment_integrati.Http.{Request, Response, Writer, Handler, Middleware}
use stripe_payment_integrati.Http.Api.{write_error}
use stripe_payment_integrati.Http.Cookies.{
  set_session_cookie, session_token_from_request, with_user,
}

-- nanoseconds
abbrev pub session_sliding_ttl : ℕ
session_sliding_ttl = 604800000000000

pub record SessionLookup : Type 0 where
  pub by_token_hash : String → Try (Option UserSession)
  pub touch : String → ℕ → Try (Unit {0})

abbrev pub unauthorized_with : Writer → String → Run Response
unauthorized_with w text = pure (write_error w 401 "UNAUTHORIZED" text)

module _ (digest : String → String) (store : SessionLookup) where
  -- The error of the touch is dropped; the cookie is marked secure where the connection is.
  unfoldable pub extend_session : Handler → Writer → Request → String → UserSession → Run Response
  extend_session next w r token session = bind read_clock λ now.
      let expiry = now + session_sliding_ttl in
      bind (store.touch session.id expiry) λ dropped. bind read_clock λ later.
        next (set_session_cookie token later expiry r.tls w)
          (with_user (record { id = session.customer_id; email = session.email }) r)

  unfoldable pub for_session :
      Handler → Writer → Request → String → Result (Option UserSession) → Run Response
  for_session next w r token (err e) =
      pure (write_error w 503 "SESSION_UNAVAILABLE" "session check failed")
  for_session next w r token (ok none) = unauthorized_with w "invalid or expired session"
  for_session next w r token (ok (some session)) = extend_session next w r token session

  unfoldable pub require_user_session : Middleware
  require_user_session next w r =
      let token = session_token_from_request r in
      if token == ""
      then unauthorized_with w "missing session"
      else bind (store.by_token_hash (digest token)) (for_session next w r token)

pub record UserClaims : Type 0 where
  pub subject : String
  pub email : String
  pub role : String
  pub expires_at : ℕ
  pub issued_at : ℕ

-- golang-jwt with the method HS256: `parse` gives the claims of a token that is signed with the secret
-- and valid at the time; `drop_prefix` is strings.TrimPrefix.
pub record Jwt : Type 0 where
  pub sign : String → UserClaims → Option String
  pub parse : String → String → ℕ → Option UserClaims
  pub drop_prefix : String → String → String

abbrev pub role_user : String
role_user = "user"

abbrev pub user_claims : String → String → ℕ → ℕ → UserClaims
user_claims customer email now ttl = record {
  subject = customer;
  email = email;
  role = role_user;
  expires_at = now + ttl;
  issued_at = now;
}

module _ (jwt : Jwt) where
  unfoldable pub issue_user_token : String → String → String → ℕ → ℕ → Option (String × ℕ)
  issue_user_token secret customer email ttl now =
      issued (now + ttl) (jwt.sign secret (user_claims customer email now ttl))
    where
      issued : ℕ → Option String → Option (String × ℕ)
      issued t none = none
      issued t (some signed) = some (signed, t)

  unfoldable pub accepted_claims : Option UserClaims → Option UserClaims
  accepted_claims none = none
  accepted_claims (some c) =
      if not (c.role == role_user) || (c.email == "") || (c.subject == "") then none else some c

  unfoldable pub verify_user_token : String → String → ℕ → Option UserClaims
  verify_user_token secret token now = accepted_claims (jwt.parse secret token now)

  unfoldable pub as_claimed : Handler → Writer → Request → Option UserClaims → Run Response
  as_claimed next w r none = unauthorized_with w "invalid or expired token"
  as_claimed next w r (some c) = next w (with_user (record { id = c.subject; email = c.email }) r)

  unfoldable pub require_user_jwt : String → Middleware
  require_user_jwt secret next w r =
      let header = r.header "Authorization" in
      if not (starts_with header "Bearer ")
      then unauthorized_with w "missing bearer token"
      else bind read_clock λ now.
        as_claimed next w r (verify_user_token secret (jwt.drop_prefix "Bearer " header) now)
