-- ===== src/Auth/Keeping.antt =====
-- The operations of the auth service keep every relation between tables that their statements keep.
use stripe_payment_integrati.Db.Tokens.{
  create_email_verification_token, create_password_reset_token, consume_password_reset_token,
  consume_email_verification_token,
}
use stripe_payment_integrati.Prelude.{
  ◌+◌, ℕ, String, ◌==◌, ◌||◌, not, Option, none, some, refl, ltb,
}
use stripe_payment_integrati.Prelude.Text.{trim_space, len}
use stripe_payment_integrati.Db.{Tables, Customer, ok}
use stripe_payment_integrati.Db.Accounts.{
  UserSession, get_customer_by_email, get_customer_by_id, get_user_session_by_token_hash,
  create_user_session, create_customer, revoke_user_session, update_customer_password,
  mark_customer_email_verified, revoke_all_user_sessions,
}
use stripe_payment_integrati.Rules.{AccountRules}
use stripe_payment_integrati.World.{Try, call, bind, read_clock, new_id}
use stripe_payment_integrati.World.Keeps.{
  Keeps, Keeps-pure, Keeps-bind, Keeps-call, Keeps-new_id, Keeps-read_clock, Keeps-draw_token,
  Keeps-if, Keeps-try_bind, Keeps-read, Keeps-given,
}
use stripe_payment_integrati.Auth.{
  Vault, opaque, hashed, draw_salt, generate_opaque_token, hash_password, create_session, try_bind,
  issue_email_verification, open_account, unless_taken, register, check_customer, login,
  revoke_found, logout, get_user, send_reset, request_password_reset, change_password,
  reset_password, mark_verified, verify_email, bind, validate_credentials, check_password,
  min_password_length, read_clock, new_id, create_user_session, create_email_verification_token,
  create_customer, revoke_user_session, create_password_reset_token, update_customer_password,
  consume_password_reset_token, mark_customer_email_verified, consume_email_verification_token,
  revoke_all_user_sessions, user_session_ttl, email_verification_ttl, password_reset_ttl,
  to_user_profile,
}

module _ {R : Tables → Tables → Type 0} (rules : AccountRules R) (vault : Vault) where
  by_email-Keeps : (e : String) → Keeps R (call (get_customer_by_email vault.lower e))
  unfolding get_customer_by_email
  by_email-Keeps e = Keeps-read rules.order (get_customer_by_email vault.lower e) (λ t db. refl)

  salt-Keeps : Keeps R draw_salt
  unfolding draw_salt
  salt-Keeps = record { at = λ w fair. (rules.order.refl_at w.tables, fair) }

  hash-Keeps : (p : String) → Keeps R (hash_password vault p)
  unfolding hash_password
  hash-Keeps p =
      Keeps-bind rules.order _ _ salt-Keeps
        (λ salt. Keeps-pure rules.order (hashed (vault.bcrypt_hash salt p)))

  token-Keeps : Keeps R (generate_opaque_token vault)
  unfolding generate_opaque_token
  token-Keeps =
      Keeps-bind rules.order _ _ (Keeps-draw_token rules.order)
        (λ drawn. Keeps-pure rules.order (opaque vault.digest drawn))

  -- a token, the time and an id, and then a statement on them
  issue-Keeps :
      {A : Type 0} (f : String × String → ℕ → String → Try A)
      → ((t : String × String) (now : ℕ) (id : String) → Keeps R (f t now id))
      → Keeps R (
          try_bind
            (generate_opaque_token vault)
            λ t. bind read_clock λ now. bind new_id λ id. f t now id)
  issue-Keeps f kf = Keeps-try_bind rules.order _ _ token-Keeps λ t.
      Keeps-bind rules.order _ _ (Keeps-read_clock rules.order)
        λ now. Keeps-bind rules.order _ _ (Keeps-new_id rules.order) (kf t now)

  session-Keeps : (c : Customer) → Keeps R (create_session vault c)
  unfolding create_session
  session-Keeps c = issue-Keeps _ λ t now id.
      Keeps-try_bind rules.order _ _
        (Keeps-call rules.order (create_user_session id t.1 c.id (now + user_session_ttl))
          (rules.add_session id t.1 c.id (now + user_session_ttl)))
        (λ _. Keeps-pure rules.order (
          ok (record {
            session_token = t.0;
            expires_at = now + user_session_ttl;
            user = to_user_profile c;
          })))

  verification-Keeps : (customer : String) → Keeps R (issue_email_verification vault customer)
  unfolding issue_email_verification
  verification-Keeps customer = issue-Keeps _ λ t now id.
      Keeps-call rules.order
        (create_email_verification_token id t.1 customer (now + email_verification_ttl))
        (rules.add_verification id t.1 customer (now + email_verification_ttl))

  open-Keeps : (e p : String) → Keeps R (open_account vault e p)
  unfolding open_account
  open-Keeps e p = Keeps-try_bind rules.order _ _ (hash-Keeps p) λ hash.
      Keeps-bind rules.order _ _ (Keeps-new_id rules.order) λ id.
        Keeps-try_bind rules.order _ _
          (Keeps-call rules.order (create_customer id e hash) (rules.add_customer id e hash))
          λ c. Keeps-try_bind rules.order _ _ (verification-Keeps c.id) (λ _. session-Keeps c)

  unless_taken-Keeps : (e p : String) (c : Option Customer) → Keeps R (unless_taken vault e p c)
  unfolding unless_taken
  unless_taken-Keeps e p none = open-Keeps e p
  unless_taken-Keeps e p (some c) = Keeps-pure rules.order _

  pub register-Keeps : (email password : String) → Keeps R (register vault email password)
  unfolding register
  register-Keeps email password =
      Keeps-given rules.order (validate_credentials vault email password) _
        λ (e, p). Keeps-try_bind rules.order _ _ (by_email-Keeps e) (unless_taken-Keeps e p)

  checked-Keeps : (p : String) (c : Option Customer) → Keeps R (check_customer vault p c)
  unfolding check_customer
  checked-Keeps p none = Keeps-pure rules.order _
  checked-Keeps p (some c) =
      Keeps-if rules.order (check_password vault c.password_hash p) _ _ (session-Keeps c)
        (Keeps-pure rules.order _)

  pub login-Keeps : (email password : String) → Keeps R (login vault email password)
  unfolding login
  login-Keeps email password =
      Keeps-given rules.order (validate_credentials vault email password) _
        λ (e, p). Keeps-try_bind rules.order _ _ (by_email-Keeps e) (checked-Keeps p)

  pub by_token_hash-Keeps : (hash : String) → Keeps R (call (get_user_session_by_token_hash hash))
  unfolding get_user_session_by_token_hash
  by_token_hash-Keeps hash =
      Keeps-read rules.order (get_user_session_by_token_hash hash) (λ t db. refl)

  revoke-Keeps : (s : Option UserSession) → Keeps R (revoke_found vault s)
  unfolding revoke_found
  revoke-Keeps none = Keeps-pure rules.order _
  revoke-Keeps (some s) =
      Keeps-call rules.order (revoke_user_session s.id) (rules.revoke_session s.id)

  pub logout-Keeps : (token : String) → Keeps R (logout vault token)
  unfolding logout
  logout-Keeps token =
      Keeps-if rules.order (token == "") _ _ (Keeps-pure rules.order _)
        (Keeps-try_bind rules.order _ _ (by_token_hash-Keeps (vault.digest token)) revoke-Keeps)

  by_id-Keeps : (id : String) → Keeps R (call (get_customer_by_id id))
  unfolding get_customer_by_id
  by_id-Keeps id = Keeps-read rules.order (get_customer_by_id id) (λ t db. refl)

  pub get_user-Keeps : (id : String) → Keeps R (get_user vault id)
  unfolding get_user
  get_user-Keeps id =
      Keeps-if rules.order (id == "") _ _ (Keeps-pure rules.order _)
        (Keeps-try_bind rules.order _ _ (by_id-Keeps id) (λ c. Keeps-pure rules.order _))

  send-Keeps : (c : Option Customer) → Keeps R (send_reset vault c)
  unfolding send_reset
  send-Keeps none = Keeps-pure rules.order _
  send-Keeps (some c) = issue-Keeps _ λ t now id.
      Keeps-call rules.order (create_password_reset_token id t.1 c.id (now + password_reset_ttl))
        (rules.add_reset id t.1 c.id (now + password_reset_ttl))

  pub request_password_reset-Keeps : (email : String) → Keeps R (request_password_reset vault email)
  unfolding request_password_reset
  request_password_reset-Keeps email =
      let e = trim_space email in
      Keeps-if rules.order (e == "") _ _ (Keeps-pure rules.order _) (
        Keeps-if rules.order (not (vault.parses_address e)) _ _ (Keeps-pure rules.order _)
          (Keeps-try_bind rules.order _ _ (by_email-Keeps e) send-Keeps))

  change-Keeps : (p customer : String) → Keeps R (change_password vault p customer)
  unfolding change_password
  change-Keeps p customer = Keeps-if rules.order (customer == "") _ _ (Keeps-pure rules.order _) (
      Keeps-try_bind rules.order _ _ (hash-Keeps p) λ hash.
        Keeps-try_bind rules.order _ _
          (Keeps-call rules.order (update_customer_password customer hash)
            (rules.set_password customer hash))
          (λ _.
            Keeps-call rules.order (revoke_all_user_sessions customer)
              (rules.revoke_sessions customer)))

  pub reset_password-Keeps :
      (token password : String) → Keeps R (reset_password vault token password)
  unfolding reset_password
  reset_password-Keeps token password =
      let p = trim_space password in
      Keeps-if rules.order ((token == "") || (p == "")) _ _ (Keeps-pure rules.order _) (
        Keeps-if rules.order (ltb (len p) min_password_length) _ _ (Keeps-pure rules.order _) (
          Keeps-try_bind rules.order _ _
            (Keeps-call rules.order (consume_password_reset_token (vault.digest token))
              (rules.use_reset (vault.digest token)))
            (change-Keeps p)))

  mark-Keeps : (customer : String) → Keeps R (mark_verified vault customer)
  unfolding mark_verified
  mark-Keeps customer = Keeps-if rules.order (customer == "") _ _ (Keeps-pure rules.order _) (
      Keeps-call rules.order (mark_customer_email_verified customer)
        (rules.verify_customer customer))

  pub verify_email-Keeps : (token : String) → Keeps R (verify_email vault token)
  unfolding verify_email
  verify_email-Keeps token = Keeps-if rules.order (token == "") _ _ (Keeps-pure rules.order _) (
      Keeps-try_bind rules.order _ _
        (Keeps-call rules.order (consume_email_verification_token (vault.digest token))
          (rules.use_verification (vault.digest token)))
        mark-Keeps)
