-- ===== src/Tests/Recovery.antt =====
-- The theorems on registration and on forgotten passwords at concrete requests.
use stripe_payment_integrati.Server.Recovery.{forgot_password-TellsNothing}
use stripe_payment_integrati.Http.{fresh_writer}
use stripe_payment_integrati.Server.{auth_service}
use stripe_payment_integrati.Auth.Reset.{ResetDone}
use stripe_payment_integrati.Auth.Registration.{
  Registers, registered, Verified, register-verify_email,
}
use stripe_payment_integrati.Tests.Accounts.{vault, ann, ann_Proper}
use stripe_payment_integrati.Auth.Recovery.{CanIssue, Requests, requested, issued, request-reset}
use stripe_payment_integrati.Db.{no_rows, err}
use stripe_payment_integrati.Auth.{
  validate_credentials, to_user_profile, request_password_reset, register, reset_password,
  email_taken,
}
use stripe_payment_integrati.Http.Handlers.Accounts.{forgot_password}
use stripe_payment_integrati.Prelude.Text.{trim_space}
use stripe_payment_integrati.Db.Table.{any_row, find_row}
use stripe_payment_integrati.World.{World, quietly}
use stripe_payment_integrati.Prelude.{◌≡◌, refl, ◌∷◌, [], some, false, true, arith}
use stripe_payment_integrati.Tests.Servers.{codec, ask}
use stripe_payment_integrati.Tests.{world_of, ok, World}

abbrev club : World
club = world_of (record no_rows { customers = ann ∷ [] }) []

abbrev nobody : World
nobody = world_of no_rows []

club-CanIssue : CanIssue vault club "token"
unfolding any_row
club-CanIssue = record { drawn_token = refl; fresh = refl }

nobody-CanIssue : CanIssue vault nobody "token"
unfolding any_row
nobody-CanIssue = record { drawn_token = refl; fresh = refl }

ann_Requests : Requests vault " a@b.c" club ann "token"
unfolding find_row trim_space
ann_Requests = record {
  written = refl;
  address = refl;
  keyed = (refl, tt);
  customer = refl;
  named = refl;
  can = club-CanIssue;
}

abbrev club_requested : World
club_requested = requested vault " a@b.c" club ann "token"

bcrypts : vault.bcrypt_hash 2 (trim_space " new password ") ≡ some "new hash"
unfolding trim_space
bcrypts = refl

request-reset_example :
    (request_password_reset vault " a@b.c" (quietly club) ≡ (ok tt, club_requested))
    × ResetDone vault "token" " new password "
        (record club_requested { clock = 5000 })
        (issued vault " a@b.c" club ann "token")
        ann
        "new hash"
        (reset_password vault "token" " new password " (record club_requested { clock = 5000 }))
request-reset_example =
    request-reset vault " a@b.c" club ann "token" 5000 " new password " "new hash" ann_Requests
      ann_Proper bcrypts

forgot_password-TellsNothing_example :
    (forgot_password codec
      (auth_service vault)
      true
      fresh_writer
      (ask "POST" "/api/auth/forgot-password")
      (quietly club)).0
    ≡ (forgot_password codec
        (auth_service vault)
        true
        fresh_writer
        (ask "POST" "/api/auth/forgot-password")
        (quietly nobody)).0
forgot_password-TellsNothing_example =
    forgot_password-TellsNothing vault codec true fresh_writer
      (ask "POST" "/api/auth/forgot-password") club nobody "token" "token" club-CanIssue
      nobody-CanIssue

nobody-Registers :
    Registers vault "b@b.c " "new password" nobody "b@b.c" "new password" "new hash" "token" "token"
unfolding find_row any_row validate_credentials trim_space
nobody-Registers = record {
  credentials = refl;
  free = refl;
  bcrypts = refl;
  new_address = refl;
  drawn_token = refl;
  fresh_token = refl;
  drawn_session = refl;
  fresh_session = refl;
  named = refl;
  some_token = refl;
}

same_address : validate_credentials vault "b@b.c" "password" ≡ ok ("b@b.c", "password")
unfolding validate_credentials trim_space
same_address = refl

abbrev joined_world : World
joined_world =
    registered vault "b@b.c " "new password" nobody "b@b.c" "new password" "new hash" "token"
      "token"

register-verify_email_example :
    (register vault "b@b.c " "new password" (quietly nobody) ≡ (
      ok (record {
        session_token = "token";
        expires_at = 604800000000100;
        user = record { id = "id"; email = "b@b.c"; email_verified = false };
      }),
      joined_world,
    ))
    × Verified vault "b@b.c " "new password" nobody "b@b.c" "new password" "new hash" "token"
        "token" nobody-Registers true 5000 6000
    × (register vault "b@b.c" "password" (record joined_world { clock = 5000 })
        ≡ (err email_taken, record joined_world { clock = 5000 }))
unfolding to_user_profile
register-verify_email_example =
    register-verify_email vault "b@b.c " "new password" nobody "b@b.c" "new password" "new hash"
      "token" "token" nobody-Registers 5000 6000 "b@b.c" "password" "b@b.c" "password" (omega arith)
      same_address refl
