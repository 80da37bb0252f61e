-- ===== src/Db/Tokens.antt =====
-- backend/internal/db/auth_tokens.go: single-use tokens for a new password and for an e-mail address.
use stripe_payment_integrati.Db.Table.{any_row, find_row, update_rows}
use stripe_payment_integrati.Db.{TokenRow, Tables, Statement, Result, ok, err, unique_violation}
use stripe_payment_integrati.Prelude.{
  ℕ, String, ◌==◌, Bool, ◌&&◌, ◌||◌, not, Option, none, some, List, ◌∷◌, if◌then◌else◌, ltb,
  is_some,
}

-- The primary key and the UNIQUE column token_hash.
abbrev pub token_clashes : String → String → TokenRow → Bool
token_clashes id hash t = t.id == id || t.token_hash == hash

abbrev pub new_token : String → String → String → ℕ → TokenRow
new_token id hash customer expires = record {
  id = id;
  token_hash = hash;
  customer_id = customer;
  expires_at = expires;
  used_at = none;
}

unfoldable pub insert_token : TokenRow → List TokenRow → Result (List TokenRow)
insert_token t rows =
    if any_row (token_clashes t.id t.token_hash) rows then err unique_violation else ok (t ∷ rows)

abbrev pub is_usable : String → ℕ → TokenRow → Bool
is_usable hash now t = t.token_hash == hash && not (is_some t.used_at) && ltb now t.expires_at

abbrev pub used : ℕ → TokenRow → TokenRow
used now t = record t { used_at = some now }

-- UPDATE … RETURNING customer_id, "" where no row matched
abbrev pub consumed : Option TokenRow → String
consumed none = ""
consumed (some t) = t.customer_id

abbrev pub with_reset_tokens : Tables → Result (List TokenRow) → Result (Unit {0}) × Tables
with_reset_tokens db (ok rows) = (ok tt, record db { reset_tokens = rows })
with_reset_tokens db (err e) = (err e, db)

abbrev pub with_verification_tokens : Tables → Result (List TokenRow) → Result (Unit {0}) × Tables
with_verification_tokens db (ok rows) = (ok tt, record db { verification_tokens = rows })
with_verification_tokens db (err e) = (err e, db)

unfoldable pub create_password_reset_token : String → String → String → ℕ → Statement (Unit {0})
create_password_reset_token id hash customer expires now db =
    with_reset_tokens db (insert_token (new_token id hash customer expires) db.reset_tokens)

unfoldable pub consume_password_reset_token : String → Statement String
consume_password_reset_token hash now db = (
  ok (consumed (find_row (is_usable hash now) db.reset_tokens)),
  record db { reset_tokens = update_rows (is_usable hash now) (used now) db.reset_tokens },
)

unfoldable pub create_email_verification_token : String → String → String → ℕ → Statement (Unit {0})
create_email_verification_token id hash customer expires now db =
    with_verification_tokens db
      (insert_token (new_token id hash customer expires) db.verification_tokens)

unfoldable pub consume_email_verification_token : String → Statement String
consume_email_verification_token hash now db = (
  ok (consumed (find_row (is_usable hash now) db.verification_tokens)),
  record db {
    verification_tokens = update_rows (is_usable hash now) (used now) db.verification_tokens;
  },
)
