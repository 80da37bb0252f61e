-- ===== src/Auth/Registration.antt =====
-- backend/internal/service/auth.go, Register and VerifyEmail: a new account and its e-mail address.
use stripe_payment_integrati.Auth.Reset.{used_up}
use stripe_payment_integrati.Auth.Recovery.{no_usable}
use stripe_payment_integrati.Db.Table.{
  find_row, any_row, update_rows-none, affected-none, update_rows,
}
use stripe_payment_integrati.Db.Accounts.{
  get_customer_by_email, new_customer, has_email, new_session, create_customer, customer_clashes,
  session_clashes, create_user_session, mark_customer_email_verified, unverified, is_customer,
  verified_at,
}
use stripe_payment_integrati.Db.Tokens.{
  consume_email_verification_token, new_token, is_usable, token_clashes,
  create_email_verification_token, used, insert_token,
}
use stripe_payment_integrati.Db.{Customer, err}
use stripe_payment_integrati.World.{World, quietly, call, new_id, draw_token}
use stripe_payment_integrati.Auth.{
  Vault, verify_email, register, String, mark_verified, unless_taken, call, suc, Customer,
  validate_credentials, open_account, consume_email_verification_token, get_customer_by_email, ok,
  email_verification_ttl, hash_password, draw_salt, none, some, user_session_ttl, new_id, err,
  create_customer, invalid_token, email_taken, issue_email_verification,
  create_email_verification_token, create_session, generate_opaque_token, draw_token,
  create_user_session, to_user_profile, ℕ, mark_customer_email_verified, Bool, ltb,
}
use stripe_payment_integrati.Prelude.{
  ◌≡◌, refl, ◌==◌, ◌∷◌, ◌+◌, String, suc, false, none, some, ℕ, Bool, ◌≤◌, eq_refl, ltb, true,
  Bool-cases, inl, subst, sym, inr,
}

-- A verification token that is not usable is refused, and nothing changes.
unverifiable-refused :
    (vault : Vault) (token : String) (w : World)
    → (token == "") ≡ false
    → find_row (is_usable (vault.digest token) w.clock) w.tables.verification_tokens ≡ none
    → verify_email vault token (quietly w)
      ≡ (err (invalid_token "invalid or expired verification token"), quietly w)
unfolding verify_email mark_verified call consume_email_verification_token
unverifiable-refused vault token w written gone =
    rw
      (
        written,
        gone,
        update_rows-none (is_usable (vault.digest token) w.clock) (used w.clock)
            w.tables.verification_tokens
            (affected-none (is_usable (vault.digest token) w.clock) w.tables.verification_tokens
              gone),
      )
      refl

taken-refused :
    (vault : Vault) (email password : String) (w : World) (e p : String) (c : Customer)
    → validate_credentials vault email password ≡ ok (e, p)
    → find_row (has_email vault.lower e) w.tables.customers ≡ some c
    → register vault email password (quietly w) ≡ (err email_taken, quietly w)
unfolding register unless_taken call get_customer_by_email
taken-refused vault email password w e p c credentials found = rw (credentials, found) refl

module _ (vault : Vault) (email password : String) (w : World)
    (e p hash token session : String) where
  abbrev pub customer_id : String
  customer_id = w.ids (suc w.drawn)

  abbrev pub verification_id : String
  verification_id = w.ids (suc (suc (suc w.drawn)))

  abbrev pub new_session_id : String
  new_session_id = w.ids (suc (suc (suc (suc (suc w.drawn)))))

  abbrev pub account : Customer
  account = new_customer customer_id e hash w.clock

  abbrev pub registered : World
  registered = record (quietly w) {
    tables = record w.tables {
      customers = account ∷ w.tables.customers;
      verification_tokens =
          new_token verification_id (vault.digest token) customer_id
            (w.clock + email_verification_ttl)
          ∷ w.tables.verification_tokens;
      sessions =
          new_session new_session_id (vault.digest session) customer_id (w.clock + user_session_ttl)
          ∷ w.tables.sessions;
    };
    drawn = suc (suc (suc (suc (suc (suc w.drawn)))));
  }

  -- The address is free, bcrypt takes the password, and the new rows clash with none.
  pub record Registers : Type 0 where
    pub credentials : validate_credentials vault email password ≡ ok (e, p)
    pub free : find_row (has_email vault.lower e) w.tables.customers ≡ none
    pub bcrypts : vault.bcrypt_hash w.drawn p ≡ some hash
    pub new_address : any_row (customer_clashes customer_id e) w.tables.customers ≡ false
    pub drawn_token : w.entropy (suc (suc w.drawn)) ≡ some token
    pub fresh_token :
        any_row (token_clashes verification_id (vault.digest token)) w.tables.verification_tokens
        ≡ false
    pub drawn_session : w.entropy (suc (suc (suc (suc w.drawn)))) ≡ some session
    pub fresh_session :
        any_row (session_clashes new_session_id (vault.digest session)) w.tables.sessions ≡ false
    pub named : (customer_id == "") ≡ false
    pub some_token : (token == "") ≡ false

  module _ (q : Registers) where
    registers : register vault email password (quietly w) ≡ (
      ok (record {
        session_token = session;
        expires_at = w.clock + user_session_ttl;
        user = to_user_profile account;
      }),
      registered,
    )
    unfolding register unless_taken open_account call get_customer_by_email hash_password draw_salt
        new_id create_customer issue_email_verification create_email_verification_token insert_token
        create_session generate_opaque_token draw_token create_user_session
    registers =
        rw
          (
            q.credentials, q.free, q.bcrypts, q.new_address, q.drawn_token, q.fresh_token,
            q.drawn_session, q.fresh_session,
          )
          refl

    abbrev pub verified : ℕ → World
    verified t = record registered {
      tables = record registered.tables {
        verification_tokens =
            update_rows (is_usable (vault.digest token) t) (used t)
              registered.tables.verification_tokens;
        customers =
            update_rows (unverified customer_id) (verified_at t) registered.tables.customers;
      };
      clock = t;
    }

    verifies :
        (t : ℕ)
        → ltb t (w.clock + email_verification_ttl) ≡ true
        → verify_email vault token (record registered { clock = t }) ≡ (ok tt, verified t)
    unfolding verify_email mark_verified call consume_email_verification_token
        mark_customer_email_verified find_row
    verifies t live = rw (q.some_token, eq_refl (vault.digest token), live, q.named) refl

    marked :
        (t : ℕ)
        → find_row (is_customer customer_id) (verified t).tables.customers
          ≡ some (verified_at t account)
    unfolding find_row update_rows
    marked t = rw (eq_refl customer_id) (rw (eq_refl customer_id) refl)

    lapsed :
        (t : ℕ)
        → ltb t (w.clock + email_verification_ttl) ≡ false
        → verify_email vault token (record registered { clock = t }) ≡ (
          err (invalid_token "invalid or expired verification token"),
          record registered { clock = t },
        )
    unfolding find_row
    lapsed t late =
        unverifiable-refused vault token (record registered { clock = t }) q.some_token
          (rw (eq_refl (vault.digest token), late)
            (no_usable verification_id (vault.digest token) t w.tables.verification_tokens
              q.fresh_token))

    -- What a verification at `t` does, by whether that is before the token ends, and one at `later`.
    abbrev pub Verified : Bool → ℕ → ℕ → Type 0
    Verified true t later =
        (verify_email vault token (record registered { clock = t }) ≡ (ok tt, verified t))
        × (find_row (is_customer customer_id) (verified t).tables.customers
            ≡ some (verified_at t account))
        × (verify_email vault token (record (verified t) { clock = later }) ≡ (
          err (invalid_token "invalid or expired verification token"),
          record (verified t) { clock = later },
        ))
    Verified false t later = verify_email vault token (record registered { clock = t }) ≡ (
      err (invalid_token "invalid or expired verification token"),
      record registered { clock = t },
    )

    verification :
        (t later : ℕ) → t ≤ later → Verified (ltb t (w.clock + email_verification_ttl)) t later
    verification t later le = elim (Bool-cases (ltb t (w.clock + email_verification_ttl))) [
      | inl live ↦
          subst (λ b. Verified b t later) (sym live)
            (
              verifies t live,
              marked t,
              unverifiable-refused vault token (record (verified t) { clock = later }) q.some_token
                  (used_up (vault.digest token) t later registered.tables.verification_tokens le),
            )
      | inr late ↦ subst (λ b. Verified b t later) (sym late) (lapsed t late)
    ]

    taken :
        (t : ℕ) (other word e' p' : String)
        → validate_credentials vault other word ≡ ok (e', p')
        → vault.lower e' ≡ vault.lower e
        → register vault other word (record registered { clock = t })
          ≡ (err email_taken, record registered { clock = t })
    unfolding find_row
    taken t other word e' p' credentials same =
        taken-refused vault other word (record registered { clock = t }) e' p' account credentials
          (rw (same, eq_refl (vault.lower e)) refl)

    -- An undisturbed registration with a free address and a password that bcrypt takes stores the account, a
    -- token for its address and a session, and is answered with the session. For a day the token verifies
    -- the account's address, once: a later use of it is refused and changes nothing, as is a first use
    -- from then on. A further registration with an address of the same lower case is refused and changes
    -- nothing.
    pub register-verify_email :
        (t later : ℕ) (other word e' p' : String)
        → t ≤ later
        → validate_credentials vault other word ≡ ok (e', p')
        → vault.lower e' ≡ vault.lower e
        → (register vault email password (quietly w) ≡ (
          ok (record {
            session_token = session;
            expires_at = w.clock + user_session_ttl;
            user = to_user_profile account;
          }),
          registered,
        ))
          × Verified (ltb t (w.clock + email_verification_ttl)) t later
          × (register vault other word (record registered { clock = t })
              ≡ (err email_taken, record registered { clock = t }))
    register-verify_email t later other word e' p' le credentials same =
        (registers, verification t later le, taken t other word e' p' credentials same)
