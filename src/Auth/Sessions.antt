-- ===== src/Auth/Sessions.antt =====
-- backend/internal/service/auth.go: a session from its login to its logout.
use stripe_payment_integrati.Db.Accounts.{
  is_customer, UserSession, get_user_session_by_token_hash, session_clashes, new_session, is_active,
  has_email, not_revoked, revoked, get_customer_by_email, create_user_session, revoke_user_session,
}
use stripe_payment_integrati.Db.{Customer, SessionRow}
use stripe_payment_integrati.World.{World, quietly, call, draw_token, new_id}
use stripe_payment_integrati.Auth.{
  Vault, user_session_ttl, validate_credentials, login, ok, check_customer, create_session,
  check_password, generate_opaque_token, to_user_profile, logout, revoke_found,
}
use stripe_payment_integrati.Db.Table.{any_row, find_row, update_rows, find_row-Keyed, Keyed}
use stripe_payment_integrati.Prelude.{
  ℕ, suc, ◌+◌, String, ◌==◌, ◌≡◌, refl, true, false, ◌&&◌, none, some, Option, List, [], ◌∷◌, arith,
  Bool-cases, inl, inr, ltb, eq_refl, if◌then◌else◌,
}

-- No row of the token's hash: none is found, whatever sessions are revoked.
pub no_other :
    (id hash : String) (now t : ℕ) (rows : List SessionRow)
    → any_row (session_clashes id hash) rows ≡ false
    → (find_row (is_active hash t) rows ≡ none)
      × (find_row
            (is_active hash t)
            (update_rows (λ s. s.id == id && not_revoked s) (revoked now) rows)
          ≡ none)
unfolding any_row find_row update_rows
no_other id hash now t [] h = (refl, refl)
no_other id hash now t (s ∷ rows) h =
    let (a, b) = no_other id hash now t rows (ground arith) in
    let other : (s.id == id) ≡ false = ground arith in
    let away : (s.token_hash == hash) ≡ false = ground arith in (rw away a, rw other (rw away b))

module _ (vault : Vault) (email password : String) (w : World) (e p : String) (c : Customer)
    (token : String) where
  abbrev pub ends : ℕ
  ends = w.clock + user_session_ttl

  abbrev pub session_id : String
  session_id = w.ids (suc w.drawn)

  abbrev pub logged_in : World
  logged_in = record (quietly w) {
    tables = record w.tables {
      sessions = new_session session_id (vault.digest token) c.id ends ∷ w.tables.sessions;
    };
    drawn = suc (suc w.drawn);
  }

  -- The credentials are those of a stored customer, and the new session's row clashes with none.
  pub record LogsIn : Type 0 where
    pub credentials : validate_credentials vault email password ≡ ok (e, p)
    pub keyed : Keyed (λ (q : Customer). q.id) w.tables.customers
    pub customer : find_row (has_email vault.lower e) w.tables.customers ≡ some c
    pub accepted : check_password vault c.password_hash p ≡ true
    pub drawn_token : w.entropy w.drawn ≡ some token
    pub fresh : any_row (session_clashes session_id (vault.digest token)) w.tables.sessions ≡ false
    pub some_token : (token == "") ≡ false

  module _ (l : LogsIn) where
    pub own : find_row (is_customer c.id) w.tables.customers ≡ some c
    own =
        find_row-Keyed (λ q. q.id) (has_email vault.lower e) w.tables.customers c l.keyed l.customer

    pub logs_in : login vault email password (quietly w) ≡ (
      ok (record { session_token = token; expires_at = ends; user = to_user_profile c }),
      logged_in,
    )
    unfolding login check_customer create_session generate_opaque_token call get_customer_by_email
        draw_token new_id create_user_session
    logs_in = rw (l.credentials, l.customer, l.accepted, l.drawn_token, l.fresh) refl

    -- what a request with the token finds at a time
    abbrev pub session_at : ℕ → Option UserSession
    session_at t =
        if ltb t ends
        then some
            (record { id = session_id; customer_id = c.id; email = c.email; expires_at = ends })
        else none

    pub looked_up :
        (t : ℕ)
        → (get_user_session_by_token_hash (vault.digest token) t logged_in.tables).0
          ≡ ok (session_at t)
    unfolding get_user_session_by_token_hash find_row
    looked_up t = elim (Bool-cases (ltb t ends)) [
      | inl live ↦ rw (eq_refl (vault.digest token), live, own) refl
      | inr late ↦
          rw
            (
              eq_refl (vault.digest token),
              late,
              (no_other session_id (vault.digest token) 0 t w.tables.sessions l.fresh).0,
            )
            refl
    ]

    abbrev pub logged_out : ℕ → World
    logged_out now = record logged_in {
      tables = record logged_in.tables {
        sessions =
            update_rows (λ s. s.id == session_id && not_revoked s) (revoked now)
              logged_in.tables.sessions;
      };
      clock = now;
    }

    pub logs_out :
        (now : ℕ)
        → ltb now ends ≡ true
        → logout vault token (record logged_in { clock = now }) ≡ (ok tt, logged_out now)
    unfolding logout revoke_found call revoke_user_session get_user_session_by_token_hash find_row
    logs_out now live = rw (l.some_token, eq_refl (vault.digest token), live, own) refl

    pub ended :
        (now t : ℕ)
        → (get_user_session_by_token_hash (vault.digest token) t (logged_out now).tables).0
          ≡ ok none
    unfolding get_user_session_by_token_hash find_row update_rows
    ended now t =
        let rest = (no_other session_id (vault.digest token) now t w.tables.sessions l.fresh).1 in
        rw (eq_refl session_id) (rw (eq_refl (vault.digest token), rest) refl)

    -- An undisturbed login with the credentials of a stored customer gives a token, under which the
    -- customer's session is found until it expires after seven days, and not from then on; an undisturbed
    -- logout with the token before that ends it: the token finds no session at any time.
    pub login-logout :
        (now : ℕ)
        → ltb now ends ≡ true
        → (login vault email password (quietly w) ≡ (
          ok (record { session_token = token; expires_at = ends; user = to_user_profile c }),
          logged_in,
        ))
          × ((t : ℕ)
              → (get_user_session_by_token_hash (vault.digest token) t logged_in.tables).0
                ≡ ok (session_at t))
          × (logout vault token (record logged_in { clock = now }) ≡ (ok tt, logged_out now))
          × ((t : ℕ)
              → (get_user_session_by_token_hash (vault.digest token) t (logged_out now).tables).0
                ≡ ok none)
    login-logout now live = (logs_in, looked_up, logs_out now live, ended now)
