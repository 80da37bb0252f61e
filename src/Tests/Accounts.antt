-- ===== src/Tests/Accounts.antt =====
-- The theorems on accounts at concrete requests.
use stripe_payment_integrati.Db.Accounts.{get_user_session_by_token_hash}
use stripe_payment_integrati.Auth.Sessions.{logged_in, logged_out, LogsIn, session_at, login-logout}
use stripe_payment_integrati.Tests.{world_of}
use stripe_payment_integrati.Auth.Reset.{ResetDone, Proper, Holds, reset_password_lem}
use stripe_payment_integrati.Db.Table.{find_row, any_row}
use stripe_payment_integrati.World.{World, quietly}
use stripe_payment_integrati.Db.{Customer, TokenRow, no_rows, ok}
use stripe_payment_integrati.Auth.{
  Vault, validate_credentials, login, reset_password, to_user_profile, logout,
}
use stripe_payment_integrati.Prelude.{ℕ, ◌==◌, ◌≡◌, refl, true, some, none, [], ◌∷◌, if◌then◌else◌}
use stripe_payment_integrati.Prelude.Text.{trim_space}

abbrev pub vault : Vault
vault = record {
  digest = λ s. if s == "token" then "digest" else "other";
  parses_address = λ s. true;
  lower = λ s. s;
  bcrypt_hash = λ salt s. if s == "new password" then some "new hash" else none;
  bcrypt_check = λ h s. if h == "hash" then s == "password" else s == "new password";
}

abbrev pub ann : Customer
ann = record {
  id = "ann";
  email = "a@b.c";
  password_hash = "hash";
  email_verified_at = none;
  created_at = 1;
}

abbrev reset_row : TokenRow
reset_row = record {
  id = "t";
  token_hash = "digest";
  customer_id = "ann";
  expires_at = 3600000000000;
  used_at = none;
}

abbrev pub accounts : World
accounts =
    world_of
      (record no_rows {
        customers = ann ∷ [];
        reset_tokens = reset_row ∷ [];
        sessions =
            record {
              id = "s";
              token_hash = "h";
              customer_id = "ann";
              expires_at = 500;
              revoked_at = none;
            }
            ∷ [];
      })
      []

pub ann_Proper : Proper "token" " new password "
unfolding trim_space
ann_Proper = record { has_token = refl; has_password = refl; long = refl }

ann_Holds : Holds vault "token" " new password " accounts reset_row ann "new hash"
unfolding find_row trim_space
ann_Holds = record { usable = refl; owned = refl; owner = refl; bcrypts = refl }

reset_password_lem_example :
    ResetDone vault "token" " new password " accounts reset_row ann "new hash"
      (reset_password vault "token" " new password " (quietly accounts))
reset_password_lem_example =
    reset_password_lem vault "token" " new password " accounts reset_row ann "new hash" ann_Proper
      ann_Holds

pub ann_LogsIn : LogsIn vault " a@b.c" "password" accounts "a@b.c" "password" ann "token"
unfolding validate_credentials trim_space find_row any_row
ann_LogsIn = record {
  credentials = refl;
  keyed = (refl, tt);
  customer = refl;
  accepted = refl;
  drawn_token = refl;
  fresh = refl;
  some_token = refl;
}

abbrev pub in_world : World
in_world = logged_in vault " a@b.c" "password" accounts "a@b.c" "password" ann "token"

abbrev pub out_world : World
out_world =
    logged_out vault " a@b.c" "password" accounts "a@b.c" "password" ann "token" ann_LogsIn 5000

login-logout_example :
    (login vault " a@b.c" "password" (quietly accounts) ≡ (
      ok (record {
        session_token = "token";
        expires_at = 604800000000100;
        user = to_user_profile ann;
      }),
      in_world,
    ))
    × ((t : ℕ)
        → (get_user_session_by_token_hash "digest" t in_world.tables).0
          ≡ ok (
              session_at vault " a@b.c" "password" accounts "a@b.c" "password" ann "token"
                ann_LogsIn t))
    × (logout vault "token" (record in_world { clock = 5000 }) ≡ (ok tt, out_world))
    × ((t : ℕ) → (get_user_session_by_token_hash "digest" t out_world.tables).0 ≡ ok none)
login-logout_example =
    login-logout vault " a@b.c" "password" accounts "a@b.c" "password" ann "token" ann_LogsIn 5000
      refl
