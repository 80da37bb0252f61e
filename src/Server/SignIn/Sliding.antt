-- ===== src/Server/SignIn/Sliding.antt =====
-- backend/internal/middleware/session.go over the auth service: a request with a cookie extends the
-- session.
use stripe_payment_integrati.Http.Api.{write_json}
use stripe_payment_integrati.Http.Cookies.{
  session_token_from_request, user_from_context, set_session_cookie, known, identified, with_user,
}
use stripe_payment_integrati.Server.{session_store, auth_service}
use stripe_payment_integrati.Http.Middleware.Sessions.{
  require_user_session, for_session, extend_session,
}
use stripe_payment_integrati.Http.Handlers.Accounts.{me, me_of}
use stripe_payment_integrati.Prelude.{
  ℕ, ◌+◌, String, ◌==◌, ◌&&◌, ◌≡◌, refl, Bool, true, false, some, ltb, eq_refl, [], Option, List,
  none, Bool-cases, inl, if◌then◌else◌, inr, ◌∷◌, arith,
}
use stripe_payment_integrati.Db.{Customer, ok, SessionRow}
use stripe_payment_integrati.Db.Accounts.{
  get_user_session_by_token_hash, not_revoked, expiring, touch_user_session, get_customer_by_id,
  is_customer, is_active, UserSession, session_clashes,
}
use stripe_payment_integrati.Db.Table.{update_rows, find_row, any_row}
use stripe_payment_integrati.World.{World, call}
use stripe_payment_integrati.Auth.{Vault, user_session_ttl, to_user_profile, get_user, profile_of}
use stripe_payment_integrati.Auth.Sessions.{LogsIn, logged_in, session_id, own}
use stripe_payment_integrati.Http.{Writer, Request, Response, Payload}
use stripe_payment_integrati.Http.Handlers.{Codec, serve, answer}

-- No row of the token's hash: none is found, whatever sessions are extended.
find_row-expiring :
    (hash id : String) (t now : ℕ) (rows : List SessionRow)
    → any_row (session_clashes id hash) rows ≡ false
    → find_row
        (is_active hash now)
        (update_rows (λ s. s.id == id && not_revoked s) (expiring t) rows)
      ≡ none
unfolding any_row find_row update_rows
find_row-expiring hash id t now [] h = refl
find_row-expiring hash id t now (s ∷ rows) h =
    let other : (s.id == id) ≡ false = ground arith in
    let away : (s.token_hash == hash) ≡ false = ground arith in
    rw other (rw away (find_row-expiring hash id t now rows (ground arith)))

module _ (vault : Vault) (email password : String) (w : World) (e p : String) (c : Customer)
    (token : String) where
  -- the session's row once a request has extended it
  abbrev pub extended : ℕ → World
  extended t = record (logged_in vault email password w e p c token) {
    clock = t;
    tables = record (logged_in vault email password w e p c token).tables {
      sessions =
          update_rows (λ s. s.id == session_id vault email password w e p c token && not_revoked s)
            (expiring (t + user_session_ttl))
            (logged_in vault email password w e p c token).tables.sessions;
    };
  }

  -- the session that a request with the token finds at a time, after a request at `t`
  abbrev pub session_after : ℕ → ℕ → Option UserSession
  session_after t now =
      if ltb now (t + user_session_ttl)
      then some (record {
        id = session_id vault email password w e p c token;
        customer_id = c.id;
        email = c.email;
        expires_at = t + user_session_ttl;
      })
      else none

module _ (vault : Vault) (email password : String) (w : World) (e p : String) (c : Customer)
    (token : String) (l : LogsIn vault email password w e p c token) (codec : Codec)
    (secure : Bool) where
  -- A request with the cookie, to a handler that asks who the client is.
  abbrev pub ask_me : Writer → Request → World → Response × World
  ask_me = require_user_session vault.digest session_store (me codec (auth_service vault) secure)

  known_user :
      (r : Request)
      → (c.id == "") ≡ false
      → (c.email == "") ≡ false
      → user_from_context (with_user (record { id = c.id; email = c.email }) r)
        ≡ some (record { id = c.id; email = c.email })
  unfolding user_from_context with_user known identified
  known_user r has_id has_email = rw (has_id, has_email) refl

  me-known :
      (wr : Writer) (r : Request) (world : World)
      → (c.id == "") ≡ false
      → (c.email == "") ≡ false
      → world.schedule ≡ []
      → find_row (is_customer c.id) world.tables.customers ≡ some c
      → me codec
          (auth_service vault)
          secure
          wr
          (with_user (record { id = c.id; email = c.email }) r)
          world
        ≡ (write_json wr 200 (Payload.profile (to_user_profile c)), record world { schedule = [] })
  unfolding me me_of serve answer get_user profile_of call get_customer_by_id
  me-known wr r world has_id has_email quiet stored =
      rw (known_user r has_id has_email) (rw (has_id, quiet, stored) refl)

  pub shows_me :
      (wr : Writer) (r : Request) (t : ℕ)
      → r.cookie "session" ≡ some token
      → (c.id == "") ≡ false
      → (c.email == "") ≡ false
      → ltb t (w.clock + user_session_ttl) ≡ true
      → ask_me wr r (record (logged_in vault email password w e p c token) { clock = t }) ≡ (
        write_json
            (set_session_cookie token t (t + user_session_ttl) r.tls wr)
            200
            (Payload.profile (to_user_profile c)),
        extended vault email password w e p c token t,
      )
  unfolding require_user_session session_token_from_request for_session extend_session call
      touch_user_session get_user_session_by_token_hash find_row
  shows_me wr r t cookie has_id has_email live =
      let here = own vault email password w e p c token l in
      rw (cookie, l.some_token, eq_refl (vault.digest token), live, here)
        (me-known (set_session_cookie token t (t + user_session_ttl) r.tls wr) r
          (extended vault email password w e p c token t) has_id has_email refl here)

  no_rest :
      (t now : ℕ)
      → find_row (is_active (vault.digest token) now) (
          update_rows
            (λ s. s.id == session_id vault email password w e p c token && not_revoked s)
            (expiring t)
            w.tables.sessions)
        ≡ none
  no_rest t now =
      rw
        (find_row-expiring (vault.digest token) (session_id vault email password w e p c token) t
          now w.tables.sessions l.fresh)
        refl

  pub slides :
      (t now : ℕ)
      → (get_user_session_by_token_hash
          (vault.digest token)
          now
          (extended vault email password w e p c token t).tables).0
        ≡ ok (session_after vault email password w e p c token t now)
  unfolding get_user_session_by_token_hash find_row update_rows
  slides t now = elim (Bool-cases (ltb now (t + user_session_ttl))) [
    | inl live ↦
        rw
          (
            eq_refl (session_id vault email password w e p c token),
            eq_refl (vault.digest token),
            live,
            own vault email password w e p c token l,
          )
          refl
    | inr late ↦
        rw
          (
            eq_refl (session_id vault email password w e p c token),
            eq_refl (vault.digest token),
            late,
            no_rest (t + user_session_ttl) now,
          )
          refl
  ]
