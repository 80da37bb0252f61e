-- ===== src/Db/Accounts.antt =====
-- backend/internal/db/customers.go, sessions.go and the updates of customers in auth_tokens.go.
use stripe_payment_integrati.Db.Table.{with_key, any_row, find_row, update_rows}
use stripe_payment_integrati.Db.{Customer, Statement, SessionRow, ok, err, unique_violation}
use stripe_payment_integrati.Prelude.{
  ℕ, String, ◌==◌, Bool, ◌&&◌, ◌||◌, not, Option, none, some, List, ◌∷◌, if◌then◌else◌, ltb,
  is_some,
}

abbrev pub is_customer : String → Customer → Bool
is_customer k = with_key (λ c. c.id) k

-- `lower` is Postgres's lower().
abbrev pub has_email : (String → String) → String → Customer → Bool
has_email lower email c = lower c.email == lower email

abbrev pub new_customer : String → String → String → ℕ → Customer
new_customer id email hash now = record {
  id = id;
  email = email;
  password_hash = hash;
  email_verified_at = none;
  created_at = now;
}

-- The primary key and the UNIQUE column email.
abbrev pub customer_clashes : String → String → Customer → Bool
customer_clashes id email c = is_customer id c || c.email == email

unfoldable pub create_customer : String → String → String → Statement Customer
create_customer id email hash now db =
    if any_row (customer_clashes id email) db.customers then (err unique_violation, db) else (
      ok (new_customer id email hash now),
      record db { customers = new_customer id email hash now ∷ db.customers },
    )

unfoldable pub get_customer_by_email : (String → String) → String → Statement (Option Customer)
get_customer_by_email lower email now db = (ok (find_row (has_email lower email) db.customers), db)

unfoldable pub get_customer_by_id : String → Statement (Option Customer)
get_customer_by_id id now db = (ok (find_row (is_customer id) db.customers), db)

abbrev pub unverified : String → Customer → Bool
unverified id c = is_customer id c && not (is_some c.email_verified_at)

abbrev pub verified_at : ℕ → Customer → Customer
verified_at now c = record c { email_verified_at = some now }

unfoldable pub mark_customer_email_verified : String → Statement (Unit {0})
mark_customer_email_verified id now db =
    (ok tt, record db { customers = update_rows (unverified id) (verified_at now) db.customers })

abbrev pub with_password : String → Customer → Customer
with_password hash c = record c { password_hash = hash }

unfoldable pub update_customer_password : String → String → Statement (Unit {0})
update_customer_password id hash now db = (
  ok tt,
  record db { customers = update_rows (is_customer id) (with_password hash) db.customers },
)

-- what a query of `user_sessions` joined with `customers` returns
pub record UserSession : Type 0 where
  pub id : String
  pub customer_id : String
  pub email : String
  pub expires_at : ℕ

-- The primary key and the UNIQUE column token_hash.
abbrev pub session_clashes : String → String → SessionRow → Bool
session_clashes id hash s = s.id == id || s.token_hash == hash

abbrev pub new_session : String → String → String → ℕ → SessionRow
new_session id hash customer expires = record {
  id = id;
  token_hash = hash;
  customer_id = customer;
  expires_at = expires;
  revoked_at = none;
}

unfoldable pub create_user_session : String → String → String → ℕ → Statement (Unit {0})
create_user_session id hash customer expires now db =
    if any_row (session_clashes id hash) db.sessions
    then (err unique_violation, db)
    else (ok tt, record db { sessions = new_session id hash customer expires ∷ db.sessions })

abbrev pub not_revoked : SessionRow → Bool
not_revoked s = not (is_some s.revoked_at)

abbrev pub is_active : String → ℕ → SessionRow → Bool
is_active hash now s = s.token_hash == hash && not_revoked s && ltb now s.expires_at

abbrev pub joined : SessionRow → Option Customer → Option UserSession
joined s none = none
joined s (some c) =
    some (record {
      id = s.id;
      customer_id = s.customer_id;
      email = c.email;
      expires_at = s.expires_at;
    })

abbrev pub join_customer : List Customer → Option SessionRow → Option UserSession
join_customer customers none = none
join_customer customers (some s) = joined s (find_row (is_customer s.customer_id) customers)

unfoldable pub get_user_session_by_token_hash : String → Statement (Option UserSession)
get_user_session_by_token_hash hash now db =
    (ok (join_customer db.customers (find_row (is_active hash now) db.sessions)), db)

abbrev pub expiring : ℕ → SessionRow → SessionRow
expiring t s = record s { expires_at = t }

unfoldable pub touch_user_session : String → ℕ → Statement (Unit {0})
touch_user_session id expires now db = (
  ok tt,
  record db {
    sessions = update_rows (λ s. s.id == id && not_revoked s) (expiring expires) db.sessions;
  },
)

abbrev pub revoked : ℕ → SessionRow → SessionRow
revoked now s = record s { revoked_at = some now }

unfoldable pub revoke_user_session : String → Statement (Unit {0})
revoke_user_session id now db = (
  ok tt,
  record db { sessions = update_rows (λ s. s.id == id && not_revoked s) (revoked now) db.sessions },
)

unfoldable pub revoke_all_user_sessions : String → Statement (Unit {0})
revoke_all_user_sessions customer now db = (
  ok tt,
  record db {
    sessions =
        update_rows (λ s. s.customer_id == customer && not_revoked s) (revoked now) db.sessions;
  },
)
