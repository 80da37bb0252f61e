-- ===== src/Db/Soundness/Accounts.antt =====
-- Every statement on accounts, their tokens and the counters keeps a sound store sound.
use stripe_payment_integrati.Db.Buckets.{counted, increment_rate_limit_bucket, is_bucket, max_int}
use stripe_payment_integrati.Db.Tokens.{
  with_reset_tokens, with_verification_tokens, create_password_reset_token,
  consume_password_reset_token, create_email_verification_token, consume_email_verification_token,
  insert_token, new_token,
}
use stripe_payment_integrati.Db.Accounts.{
  create_customer, create_user_session, mark_customer_email_verified, customer_clashes,
  session_clashes, update_customer_password, touch_user_session, new_customer, new_session,
  revoke_user_session, is_customer, revoke_all_user_sessions, unverified, verified_at,
  with_password, not_revoked, expiring, revoked,
}
use stripe_payment_integrati.Db.Soundness.Rows.{
  find_row-fresh, with_customers, with_sessions, customers-updated, sessions-updated,
}
use stripe_payment_integrati.Prelude.{
  ℕ, String, ◌==◌, refl, ◌&&◌, Option, none, some, List, ◌∷◌, arith, ltb, Bool-cases, inl, inr,
}
use stripe_payment_integrati.Db.{Tables, Result, ok, err, TokenRow, Bucket}
use stripe_payment_integrati.Db.Table.{any_row, with_key, find_row}
use stripe_payment_integrati.Rules.{AccountRules}
use stripe_payment_integrati.World.Keeps.{Obeys}
use stripe_payment_integrati.Db.Soundness.{StaysSound, StaysSound-preorder}

add_customer-Sound : (id email hash : String) → Obeys StaysSound (create_customer id email hash)
unfolding create_customer
add_customer-Sound id email hash now db =
    elim (Bool-cases (any_row (customer_clashes id email) db.customers)) [
      | inl h ↦ rw h (λ s. s)
      | inr h ↦ rw h λ s. with_customers db s (new_customer id email hash now ∷ db.customers) (
        find_row-fresh (is_customer id) (customer_clashes id email) db.customers
            (λ c apart. ground arith) h,
        s.customers_keyed,
      )
    ]

add_session-Sound :
    (id hash customer : String) (expires : ℕ)
    → Obeys StaysSound (create_user_session id hash customer expires)
unfolding create_user_session
add_session-Sound id hash customer expires now db =
    elim (Bool-cases (any_row (session_clashes id hash) db.sessions)) [
      | inl h ↦ rw h (λ s. s)
      | inr h ↦ rw h λ s. with_sessions db s (new_session id hash customer expires ∷ db.sessions) (
        find_row-fresh (with_key (λ r. r.token_hash) hash) (session_clashes id hash) db.sessions
            (λ r apart. ground arith) h,
        s.sessions_keyed,
      )
    ]

reset_tokens-Sound :
    (db : Tables) (rows : Result (List TokenRow)) → StaysSound db (with_reset_tokens db rows).1
reset_tokens-Sound db (ok rows) = λ s. s
reset_tokens-Sound db (err e) = λ s. s

verification_tokens-Sound :
    (db : Tables) (rows : Result (List TokenRow))
    → StaysSound db (with_verification_tokens db rows).1
verification_tokens-Sound db (ok rows) = λ s. s
verification_tokens-Sound db (err e) = λ s. s

counted-Sound :
    (key : String) (start : ℕ) (db : Tables) (b : Option Bucket)
    → StaysSound db (counted key start db b).1
unfolding counted
counted-Sound key start db none = λ s. s
counted-Sound key start db (some b) = elim (Bool-cases (ltb b.request_count max_int)) [
  | inl h ↦ rw h (λ s. s)
  | inr h ↦ rw h (λ s. s)
]

count_request-Sound :
    (key : String) (start : ℕ) → Obeys StaysSound (increment_rate_limit_bucket key start)
unfolding increment_rate_limit_bucket
count_request-Sound key start now db =
    counted-Sound key start db (find_row (is_bucket key start) db.buckets)

pub account_rules : AccountRules StaysSound
unfolding mark_customer_email_verified update_customer_password touch_user_session
    revoke_user_session revoke_all_user_sessions create_password_reset_token
    consume_password_reset_token create_email_verification_token consume_email_verification_token
account_rules = record {
  order = StaysSound-preorder;
  add_customer = add_customer-Sound;
  verify_customer =
      λ id now db s. customers-updated db s (unverified id) (verified_at now) (λ c. refl);
  set_password =
      λ id hash now db s. customers-updated db s (is_customer id) (with_password hash) (λ c. refl);
  add_session = add_session-Sound;
  touch_session = λ id expires now db s.
      sessions-updated db s (λ r. r.id == id && not_revoked r) (expiring expires) (λ r. refl);
  revoke_session = λ id now db s.
      sessions-updated db s (λ r. r.id == id && not_revoked r) (revoked now) (λ r. refl);
  revoke_sessions = λ customer now db s.
      sessions-updated db s (λ r. r.customer_id == customer && not_revoked r) (revoked now)
        (λ r. refl);
  add_reset = λ id hash customer expires now db.
      reset_tokens-Sound db (insert_token (new_token id hash customer expires) db.reset_tokens);
  use_reset = λ hash now db s. s;
  add_verification = λ id hash customer expires now db.
      verification_tokens-Sound db
        (insert_token (new_token id hash customer expires) db.verification_tokens);
  use_verification = λ hash now db s. s;
  count_request = count_request-Sound;
}
