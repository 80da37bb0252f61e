-- ===== src/Auth.antt =====
-- backend/internal/service/auth.go: accounts, sessions, and single-use tokens.
pub mod Keeping
pub mod Reset
pub mod Recovery
pub mod Registration
pub mod Sessions
use stripe_payment_integrati.Db.Tokens.{
  create_email_verification_token, create_password_reset_token, consume_password_reset_token,
  consume_email_verification_token,
}
use stripe_payment_integrati.Db.Accounts.{
  UserSession, create_user_session, create_customer, get_customer_by_email, revoke_user_session,
  get_user_session_by_token_hash, get_customer_by_id, update_customer_password,
  mark_customer_email_verified, revoke_all_user_sessions,
}
use stripe_payment_integrati.World.{
  Run, Try, bind, try_bind, pure, draw_token, read_clock, new_id, call,
}
use stripe_payment_integrati.Db.{Customer, Error, Result, err, hashing_failed, no_randomness, ok}
use stripe_payment_integrati.Prelude.{
  ℕ, suc, ◌+◌, String, ◌==◌, Bool, ◌||◌, not, Option, none, some, if◌then◌else◌, ltb, is_some,
}
use stripe_payment_integrati.Prelude.Text.{trim_space, len}

-- nanoseconds
abbrev pub user_session_ttl : ℕ
user_session_ttl = 604800000000000

abbrev pub password_reset_ttl : ℕ
password_reset_ttl = 3600000000000

abbrev pub email_verification_ttl : ℕ
email_verification_ttl = 86400000000000

abbrev pub min_password_length : ℕ
min_password_length = 8

-- `digest` is hex(SHA-256), `parses_address` whether mail.ParseAddress accepts, `lower` Postgres's lower(),
-- and the two functions of bcrypt, of which the first one also takes the salt; it refuses a text of
-- more than 72 bytes.
pub record Vault : Type 0 where
  pub digest : String → String
  pub parses_address : String → Bool
  pub lower : String → String
  pub bcrypt_hash : ℕ → String → Option String
  pub bcrypt_check : String → String → Bool

pub record UserProfile : Type 0 where
  pub id : String
  pub email : String
  pub email_verified : Bool

pub record UserSessionResult : Type 0 where
  pub session_token : String
  pub expires_at : ℕ
  pub user : UserProfile

unfoldable pub to_user_profile : Customer → UserProfile
to_user_profile c = record {
  id = c.id;
  email = c.email;
  email_verified = is_some c.email_verified_at;
}

abbrev pub auth_error : ℕ → String → String → Error
auth_error status code text = Error.app (record { status = status; code = code; message = text })

abbrev pub invalid_credentials : Error
invalid_credentials = auth_error 401 "INVALID_CREDENTIALS" "invalid email or password"

abbrev pub email_taken : Error
email_taken = auth_error 409 "EMAIL_TAKEN" "email already registered"

abbrev pub invalid_token : String → Error
invalid_token text = auth_error 400 "INVALID_TOKEN" text

abbrev pub bad_input : String → Error
bad_input text = auth_error 400 "VALIDATION_ERROR" text

-- a salt, from the supply of randomness
unfoldable pub draw_salt : Run ℕ
draw_salt w = (w.drawn, record w { drawn = suc w.drawn })

abbrev pub hashed : Option String → Result String
hashed none = err hashing_failed
hashed (some h) = ok h

abbrev pub opaque : (String → String) → Option String → Result (String × String)
opaque digest none = err no_randomness
opaque digest (some token) = ok (token, digest token)

module _ (vault : Vault) where
  unfoldable pub hash_password : String → Try String
  hash_password password = bind draw_salt λ salt. pure (hashed (vault.bcrypt_hash salt password))

  abbrev pub check_password : String → String → Bool
  check_password hash password = vault.bcrypt_check hash password

  unfoldable pub generate_opaque_token : Try (String × String)
  generate_opaque_token = bind draw_token λ drawn. pure (opaque vault.digest drawn)

  unfoldable pub validate_credentials : String → String → Result (String × String)
  validate_credentials email password =
      let e = trim_space email in
      let p = trim_space password in
      if (e == "") || (p == "")
      then err (bad_input "email and password required")
      else if not (vault.parses_address e)
      then err (bad_input "email invalid")
      else if ltb (len p) min_password_length
      then err (bad_input "password must be at least 8 characters")
      else ok (e, p)

  unfoldable pub create_session : Customer → Try UserSessionResult
  create_session c = try_bind generate_opaque_token λ (t : String × String). bind read_clock λ now.
      bind new_id λ id.
        try_bind (call (create_user_session id t.1 c.id (now + user_session_ttl))) λ _. pure (
          ok (record {
            session_token = t.0;
            expires_at = now + user_session_ttl;
            user = to_user_profile c;
          }))

  unfoldable pub issue_email_verification : String → Try (Unit {0})
  issue_email_verification customer = try_bind generate_opaque_token λ (t : String × String).
      bind read_clock λ now.
        bind new_id λ id.
          call (create_email_verification_token id t.1 customer (now + email_verification_ttl))

  open_account : String → String → Try UserSessionResult
  open_account email password = try_bind (hash_password password) λ hash. bind new_id λ id.
      try_bind (call (create_customer id email hash))
        λ c. try_bind (issue_email_verification c.id) λ _. create_session c

  unless_taken : String → String → Option Customer → Try UserSessionResult
  unless_taken email password none = open_account email password
  unless_taken email password (some c) = pure (err email_taken)

  unfoldable pub register : String → String → Try UserSessionResult
  unfolding unless_taken open_account
  register email password =
      try_bind (pure (validate_credentials email password))
        λ (e, p). try_bind (call (get_customer_by_email vault.lower e)) (unless_taken e p)

  check_customer : String → Option Customer → Try UserSessionResult
  check_customer password none = pure (err invalid_credentials)
  check_customer password (some c) =
      if check_password c.password_hash password
      then create_session c
      else pure (err invalid_credentials)

  unfoldable pub login : String → String → Try UserSessionResult
  unfolding check_customer
  login email password =
      try_bind (pure (validate_credentials email password))
        λ (e, p). try_bind (call (get_customer_by_email vault.lower e)) (check_customer p)

  revoke_found : Option UserSession → Try (Unit {0})
  revoke_found none = pure (ok tt)
  revoke_found (some s) = call (revoke_user_session s.id)

  unfoldable pub logout : String → Try (Unit {0})
  unfolding revoke_found
  logout token =
      if token == ""
      then pure (ok tt)
      else try_bind (call (get_user_session_by_token_hash (vault.digest token))) revoke_found

  unfoldable pub profile_of : Option Customer → Result UserProfile
  profile_of none = err (auth_error 401 "UNAUTHORIZED" "user not found")
  profile_of (some c) = ok (to_user_profile c)

  unfoldable pub get_user : String → Try UserProfile
  unfolding profile_of
  get_user id =
      if id == ""
      then pure (err (auth_error 401 "UNAUTHORIZED" "user session required"))
      else try_bind (call (get_customer_by_id id)) (λ c. pure (profile_of c))

  send_reset : Option Customer → Try (Unit {0})
  send_reset none = pure (ok tt)
  send_reset (some c) = try_bind generate_opaque_token λ (t : String × String).
      bind read_clock λ now.
        bind new_id λ id. call (create_password_reset_token id t.1 c.id (now + password_reset_ttl))

  unfoldable pub request_password_reset : String → Try (Unit {0})
  unfolding send_reset
  request_password_reset email =
      let e = trim_space email in
      if e == ""
      then pure (err (bad_input "email required"))
      else if not (vault.parses_address e)
      then pure (err (bad_input "email invalid"))
      else try_bind (call (get_customer_by_email vault.lower e)) send_reset

  change_password : String → String → Try (Unit {0})
  change_password password customer =
      if customer == ""
      then pure (err (invalid_token "invalid or expired reset token"))
      else try_bind (hash_password password) λ hash.
        try_bind (call (update_customer_password customer hash))
          λ _. call (revoke_all_user_sessions customer)

  unfoldable pub reset_password : String → String → Try (Unit {0})
  unfolding change_password
  reset_password token password =
      let p = trim_space password in
      if (token == "") || (p == "")
      then pure (err (bad_input "token and password required"))
      else if ltb (len p) min_password_length
      then pure (err (bad_input "password must be at least 8 characters"))
      else try_bind (call (consume_password_reset_token (vault.digest token))) (change_password p)

  mark_verified : String → Try (Unit {0})
  mark_verified customer =
      if customer == ""
      then pure (err (invalid_token "invalid or expired verification token"))
      else call (mark_customer_email_verified customer)

  unfoldable pub verify_email : String → Try (Unit {0})
  unfolding mark_verified
  verify_email token =
      if token == ""
      then pure (err (bad_input "token required"))
      else try_bind (call (consume_email_verification_token (vault.digest token))) mark_verified
