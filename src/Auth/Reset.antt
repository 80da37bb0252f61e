-- ===== src/Auth/Reset.antt =====
-- backend/internal/service/auth.go, ResetPassword: the token works once, and ends all sessions.
use stripe_payment_integrati.World.{World, quietly, call}
use stripe_payment_integrati.Auth.{
  Vault, min_password_length, reset_password, ok, change_password, invalid_token, hash_password,
  draw_salt,
}
use stripe_payment_integrati.Prelude.{
  ltb, suc, ℕ, ◌≤◌, String, ◌==◌, ◌≡◌, refl, false, ◌&&◌, none, some, List, [], ◌∷◌, arith,
  Bool-cases, inl, inr, Option-cases, subst,
}
use stripe_payment_integrati.Prelude.Text.{len, trim_space}
use stripe_payment_integrati.Db.{Customer, Result, err, TokenRow, SessionRow, Tables}
use stripe_payment_integrati.Db.Tokens.{consume_password_reset_token, is_usable, used}
use stripe_payment_integrati.Db.Accounts.{
  update_customer_password, revoke_all_user_sessions, is_active, not_revoked, revoked, is_customer,
  with_password,
}
use stripe_payment_integrati.Db.Table.{
  find_row, update_rows, find_row-update_rows, find_row_sound, update_rows-none, affected-none,
}

not_usable :
    (hash : String) (now t : ℕ) (r : TokenRow)
    → now ≤ t
    → is_usable hash now r ≡ false
    → is_usable hash t r ≡ false
not_usable hash now t r later h = elim (Bool-cases (r.token_hash == hash)) [
  | inl own ↦ elim (Option-cases r.used_at) [
    | inl fresh ↦ ground arith
    | inr (u, gone) ↦ ground arith
  ]
  | inr other ↦ ground arith
]

used_row : (hash : String) (now t : ℕ) (r : TokenRow) → is_usable hash t (used now r) ≡ false
used_row hash now t r = elim (Bool-cases (r.token_hash == hash)) [
  | inl own ↦ rw own refl
  | inr other ↦ rw other refl
]

-- Once used, or expired, a token is not usable later either.
pub used_up :
    (hash : String) (now t : ℕ) (rows : List TokenRow)
    → now ≤ t
    → find_row (is_usable hash t) (update_rows (is_usable hash now) (used now) rows) ≡ none
unfolding find_row update_rows
used_up hash now t [] later = refl
used_up hash now t (r ∷ rows) later = elim (Bool-cases (is_usable hash now r)) [
  | inl h ↦ rw h (rw (used_row hash now t r) (used_up hash now t rows later))
  | inr h ↦ rw h (rw (not_usable hash now t r later h) (used_up hash now t rows later))
]

-- No session that is looked up after all of a customer's were revoked is the customer's.
none_left :
    (customer hash : String) (now t : ℕ) (rows : List SessionRow) (s : SessionRow)
    → find_row
        (is_active hash t)
        (update_rows (λ r. r.customer_id == customer && not_revoked r) (revoked now) rows)
      ≡ some s
    → (s.customer_id == customer) ≡ false
unfolding find_row update_rows
none_left customer hash now t [] s found = absurd (ground arith)
none_left customer hash now t (r ∷ rows) s found = elim (Bool-cases (r.customer_id == customer)) [
  | inl own ↦ elim (Option-cases r.revoked_at) [
    | inl live ↦ none_left customer hash now t rows s (ground arith)
    | inr (u, gone) ↦ none_left customer hash now t rows s (ground arith)
  ]
  | inr other ↦ elim (Bool-cases (is_active hash t r)) [
    | inl here ↦
        let same : r ≡ s = ground arith in
        subst (λ q. (q.customer_id == customer) ≡ false) same other
    | inr away ↦ none_left customer hash now t rows s (ground arith)
  ]
]

-- A token and a password that pass the tests on the request.
pub record Proper (token password : String) : Type 0 where
  pub has_token : (token == "") ≡ false
  pub has_password : (trim_space password == "") ≡ false
  pub long : ltb (len (trim_space password)) min_password_length ≡ false

-- A token that is not usable is refused, and nothing changes.
pub unusable-refused :
    (vault : Vault) (token password : String) (w : World)
    → Proper token password
    → find_row (is_usable (vault.digest token) w.clock) w.tables.reset_tokens ≡ none
    → reset_password vault token password (quietly w)
      ≡ (err (invalid_token "invalid or expired reset token"), quietly w)
unfolding reset_password change_password call consume_password_reset_token
unusable-refused vault token password w p gone =
    rw
      (
        p.has_token,
        p.has_password,
        p.long,
        gone,
        update_rows-none (is_usable (vault.digest token) w.clock) (used w.clock)
            w.tables.reset_tokens
            (affected-none (is_usable (vault.digest token) w.clock) w.tables.reset_tokens gone),
      )
      refl

module _ (vault : Vault) (token password : String) (w : World) (r : TokenRow) (c : Customer)
    (hash : String) where
  abbrev reset_tables : Tables
  reset_tables = record w.tables {
    reset_tokens =
        update_rows (is_usable (vault.digest token) w.clock) (used w.clock) w.tables.reset_tokens;
    customers = update_rows (is_customer r.customer_id) (with_password hash) w.tables.customers;
    sessions =
        update_rows (λ s. s.customer_id == r.customer_id && not_revoked s) (revoked w.clock)
          w.tables.sessions;
  }

  -- The token is in the store, not used and not expired; it is of the stored customer `c`; and bcrypt
  -- takes the password.
  pub record Holds : Type 0 where
    pub usable : find_row (is_usable (vault.digest token) w.clock) w.tables.reset_tokens ≡ some r
    pub owned : (r.customer_id == "") ≡ false
    pub owner : find_row (is_customer r.customer_id) w.tables.customers ≡ some c
    pub bcrypts : vault.bcrypt_hash w.drawn (trim_space password) ≡ some hash

  -- How a reset leaves the store.
  pub record ResetDone (after : Result (Unit {0}) × World) : Type 0 where
    pub answer : after.0 ≡ ok tt
    pub new_password :
        find_row (is_customer r.customer_id) after.1.tables.customers ≡ some (with_password hash c)
    pub no_sessions :
        (h : String) (t : ℕ) (s : SessionRow)
        → find_row (is_active h t) after.1.tables.sessions ≡ some s
        → (s.customer_id == r.customer_id) ≡ false
    pub once :
        (t : ℕ) (other : String)
        → w.clock ≤ t
        → Proper token other
        → let later = record after.1 { clock = t; schedule = [] } in
          reset_password vault token other later
          ≡ (err (invalid_token "invalid or expired reset token"), later)

  run :
      Proper token password
      → Holds
      → reset_password vault token password (quietly w)
        ≡ (ok tt, record (quietly w) { tables = reset_tables; drawn = suc w.drawn })
  unfolding reset_password change_password call consume_password_reset_token hash_password draw_salt
      update_customer_password revoke_all_user_sessions
  run p h = rw (p.has_token, p.has_password, p.long, h.usable, h.owned, h.bcrypts) refl

  again :
      (t : ℕ) (other : String)
      → w.clock ≤ t
      → Proper token other
      → let later = record (quietly w) { tables = reset_tables; drawn = suc w.drawn; clock = t } in
        reset_password vault token other later
        ≡ (err (invalid_token "invalid or expired reset token"), later)
  again t other le p =
      unusable-refused vault token other
        (record w { tables = reset_tables; drawn = suc w.drawn; clock = t }) p
        (used_up (vault.digest token) w.clock t w.tables.reset_tokens le)

  -- An undisturbed reset with a token that is stored, unused and not expired gives the customer the new
  -- password, leaves the customer no session that can be looked up, and uses the token up: every later
  -- undisturbed request with it is refused and changes nothing.
  pub reset_password_lem :
      Proper token password → Holds → ResetDone (reset_password vault token password (quietly w))
  reset_password_lem p h = rw (run p h) (record {
    answer = refl;
    new_password =
        rw
          (find_row-update_rows (is_customer r.customer_id) (is_customer r.customer_id)
            (with_password hash) w.tables.customers (λ q. refl))
          (rw h.owner
            (rw (find_row_sound (is_customer r.customer_id) w.tables.customers c h.owner)));
    no_sessions = λ x t s found. none_left r.customer_id x w.clock t w.tables.sessions s found;
    once = λ t other le q. again t other le q;
  })
