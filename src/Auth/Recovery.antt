-- ===== src/Auth/Recovery.antt =====
-- backend/internal/service/auth.go, RequestPasswordReset: what it answers, and what its token is good for.
use stripe_payment_integrati.Db.Accounts.{get_customer_by_email, has_email}
use stripe_payment_integrati.Auth.Reset.{
  Proper, Holds, ResetDone, unusable-refused, reset_password_lem,
}
use stripe_payment_integrati.Prelude.Text.{trim_space}
use stripe_payment_integrati.Db.Tokens.{
  token_clashes, new_token, is_usable, create_password_reset_token, insert_token,
}
use stripe_payment_integrati.Db.{Result, Customer, TokenRow, err}
use stripe_payment_integrati.World.{World, quietly, call, draw_token, new_id}
use stripe_payment_integrati.Db.Table.{any_row, find_row, Keyed, find_row-Keyed}
use stripe_payment_integrati.Auth.{
  Vault, String, request_password_reset, Result, some, send_reset, ℕ, Customer, call,
  password_reset_ttl, trim_space, ltb, err, suc, get_customer_by_email, bad_input,
  generate_opaque_token, reset_password, ok, not, draw_token, none, invalid_token, new_id,
  create_password_reset_token, Bool,
}
use stripe_payment_integrati.Prelude.{
  ◌≡◌, refl, ◌==◌, ◌∷◌, ◌+◌, [], arith, String, some, ℕ, List, if◌then◌else◌, ltb, false, true, suc,
  eq_refl, not, none, Bool-cases, inl, inr, Option-cases, subst, Bool, sym,
}

-- the answer, by the address alone
abbrev pub reset_requested : Vault → String → Result (Unit {0})
reset_requested vault email =
    if trim_space email == ""
    then err (bad_input "email required")
    else if not (vault.parses_address (trim_space email))
    then err (bad_input "email invalid")
    else ok tt

-- A token is at hand, and its row would clash with none.
pub record CanIssue (vault : Vault) (w : World) (token : String) : Type 0 where
  pub drawn_token : w.entropy w.drawn ≡ some token
  pub fresh :
      any_row (token_clashes (w.ids (suc w.drawn)) (vault.digest token)) w.tables.reset_tokens
      ≡ false

pub request-answer :
    (vault : Vault) (email : String) (w : World) (token : String)
    → CanIssue vault w token
    → (request_password_reset vault email (quietly w)).0 ≡ reset_requested vault email
unfolding request_password_reset send_reset call get_customer_by_email generate_opaque_token
    draw_token new_id create_password_reset_token insert_token
request-answer vault email w token can = elim (Bool-cases (trim_space email == "")) [
  | inl blank ↦ rw blank refl
  | inr written ↦ elim (Bool-cases (vault.parses_address (trim_space email))) [
    | inr bad ↦ rw (written, bad) refl
    | inl good ↦
        elim (Option-cases
          (find_row (has_email vault.lower (trim_space email)) w.tables.customers)) [
            | inl nobody ↦ rw (written, good, nobody) refl
            | inr (c, somebody) ↦ rw (written, good, somebody, can.drawn_token, can.fresh) refl
          ]
  ]
]

-- No row of the token's hash: none is usable.
pub no_usable :
    (id hash : String) (t : ℕ) (rows : List TokenRow)
    → any_row (token_clashes id hash) rows ≡ false
    → find_row (is_usable hash t) rows ≡ none
unfolding any_row find_row
no_usable id hash t [] h = refl
no_usable id hash t (r ∷ rows) h =
    let rest : find_row (is_usable hash t) rows ≡ none = no_usable id hash t rows (ground arith) in
    let away : (r.token_hash == hash) ≡ false = ground arith in rw away rest

module _ (vault : Vault) (email : String) (w : World) (c : Customer) (token : String) where
  -- when the token ends
  abbrev pub token_ends : ℕ
  token_ends = w.clock + password_reset_ttl

  abbrev pub issued : TokenRow
  issued = new_token (w.ids (suc w.drawn)) (vault.digest token) c.id token_ends

  abbrev pub requested : World
  requested = record (quietly w) {
    tables = record w.tables { reset_tokens = issued ∷ w.tables.reset_tokens };
    drawn = suc (suc w.drawn);
  }

  -- The address is that of a stored customer, and a token is at hand.
  pub record Requests : Type 0 where
    pub written : (trim_space email == "") ≡ false
    pub address : vault.parses_address (trim_space email) ≡ true
    pub keyed : Keyed (λ (q : Customer). q.id) w.tables.customers
    pub customer : find_row (has_email vault.lower (trim_space email)) w.tables.customers ≡ some c
    pub named : (c.id == "") ≡ false
    pub can : CanIssue vault w token

  requests : Requests → request_password_reset vault email (quietly w) ≡ (ok tt, requested)
  unfolding request_password_reset send_reset call get_customer_by_email generate_opaque_token
      draw_token new_id create_password_reset_token insert_token
  requests q = rw (q.written, q.address, q.customer, q.can.drawn_token, q.can.fresh) refl

  holds :
      (t : ℕ) (password hash : String)
      → Requests
      → ltb t token_ends ≡ true
      → vault.bcrypt_hash (suc (suc w.drawn)) (trim_space password) ≡ some hash
      → Holds vault token password (record requested { clock = t }) issued c hash
  unfolding find_row
  holds t password hash q live bcrypts = record {
    usable = rw (eq_refl (vault.digest token), live) refl;
    owned = q.named;
    owner =
        find_row-Keyed (λ q. q.id) (has_email vault.lower (trim_space email)) w.tables.customers c
          q.keyed q.customer;
    bcrypts = bcrypts;
  }

  expired :
      (t : ℕ) (password : String)
      → Requests
      → Proper token password
      → ltb t token_ends ≡ false
      → reset_password vault token password (record requested { clock = t })
        ≡ (err (invalid_token "invalid or expired reset token"), record requested { clock = t })
  unfolding find_row
  expired t password q p late =
      unusable-refused vault token password (record requested { clock = t }) p
        (rw (eq_refl (vault.digest token), late)
          (no_usable (w.ids (suc w.drawn)) (vault.digest token) t w.tables.reset_tokens
            q.can.fresh))

  -- What a reset at `t` does, by whether that is before the token ends.
  abbrev pub Recovered : Bool → ℕ → String → String → Type 0
  Recovered true t password hash =
      ResetDone vault token password (record requested { clock = t }) issued c hash
        (reset_password vault token password (record requested { clock = t }))
  Recovered false t password hash =
      reset_password vault token password (record requested { clock = t })
      ≡ (err (invalid_token "invalid or expired reset token"), record requested { clock = t })

  -- An undisturbed request with the address of a stored customer stores a new token. For an hour an
  -- undisturbed reset with it, to a password that bcrypt takes, gives the customer that password, ends the
  -- customer's sessions and uses the token up; from then on it is refused and changes nothing.
  pub request-reset :
      (t : ℕ) (password hash : String)
      → Requests
      → Proper token password
      → vault.bcrypt_hash (suc (suc w.drawn)) (trim_space password) ≡ some hash
      → (request_password_reset vault email (quietly w) ≡ (ok tt, requested))
        × Recovered (ltb t token_ends) t password hash
  request-reset t password hash q p bcrypts = (
    requests q,
    elim (Bool-cases (ltb t token_ends)) [
      | inl live ↦
          subst (λ b. Recovered b t password hash) (sym live)
            (reset_password_lem vault token password (record requested { clock = t }) issued c hash
              p (holds t password hash q live bcrypts))
      | inr late ↦ subst (λ b. Recovered b t password hash) (sym late) (expired t password q p late)
    ],
  )
