-- ===== src/Tests/Payments.antt =====
-- The endpoints of payments and accounts at concrete requests.
use stripe_payment_integrati.Db.Accounts.{get_user_session_by_token_hash}
use stripe_payment_integrati.Auth.{to_user_profile}
use stripe_payment_integrati.Http.Cookies.{set_session_cookie, clear_session_cookie}
use stripe_payment_integrati.Http.Api.{write_json, write_error}
use stripe_payment_integrati.Http.Handlers.Accounts.{log_in, log_out}
use stripe_payment_integrati.Server.SignIn.{Client, sign-in_out}
use stripe_payment_integrati.Server.SignIn.Sliding.{ask_me, extended, session_after}
use stripe_payment_integrati.World.{quietly}
use stripe_payment_integrati.Server.{router_deps, auth_service}
use stripe_payment_integrati.Http.Router.Wiring.{endpoint}
use stripe_payment_integrati.Db.Soundness.{Sound}
use stripe_payment_integrati.Server.Payments.{Settles, Signed, webhooks_stripe-Settles}
use stripe_payment_integrati.Db.Table.{find_row}
use stripe_payment_integrati.Prelude.{◌∷◌, [], ◌≡◌, ℕ, refl, none, true, false}
use stripe_payment_integrati.Domain.{OrderStatus}
use stripe_payment_integrati.Http.{fresh_writer, Payload}
use stripe_payment_integrati.Http.Router.{Endpoint}
use stripe_payment_integrati.Tests.{order_in, paid_session, completed_event, test_sdk, shop, ok}
use stripe_payment_integrati.Tests.Accounts.{vault, accounts, ann, ann_LogsIn, in_world, out_world}
use stripe_payment_integrati.Tests.Servers.{libs, config, patient, ask, codec}
use stripe_payment_integrati.Tests.Webhooks.{pending_world, pending-Ready, pending-Payment}

pending-Sound : Sound pending_world.tables
unfolding find_row
pending-Sound = record {
  orders_ok =
      (record { positive = refl; known_mode = refl; unowned = refl; stamped = λ h. cc }, tt);
  orders_keyed = (refl, tt);
  events_keyed = tt;
  customers_keyed = tt;
  sessions_keyed = tt;
}

hook-Signed :
    Signed libs vault shop patient test_sdk config fresh_writer
      (ask "POST" "/api/webhooks/stripe")
      pending_world
      completed_event
      paid_session
      (order_in OrderStatus.pending none)
unfolding find_row
hook-Signed = record { whole = refl; fits = refl; signed = refl; below_rate = refl }

webhooks_stripe-Settles_example :
    Settles libs vault shop patient test_sdk config fresh_writer
      (ask "POST" "/api/webhooks/stripe")
      pending_world
      completed_event
      paid_session
      (order_in OrderStatus.pending none)
      (endpoint libs
        (router_deps vault shop patient test_sdk config)
        Endpoint.webhooks_stripe
        fresh_writer
        (ask "POST" "/api/webhooks/stripe")
        (quietly pending_world))
webhooks_stripe-Settles_example =
    webhooks_stripe-Settles libs vault shop patient test_sdk config fresh_writer
      (ask "POST" "/api/webhooks/stripe") pending_world completed_event paid_session
      (order_in OrderStatus.pending none) pending-Sound hook-Signed pending-Ready pending-Payment

ann-Client :
    Client vault " a@b.c" "password" accounts "a@b.c" "password" ann "token" ann_LogsIn codec true
      (ask "POST" "/api/auth/login")
      (ask "GET" "/api/auth/me")
ann-Client = record {
  sends_credentials = refl;
  sends_cookie = refl;
  named = refl;
  reachable = refl;
}

abbrev seven_days_later : ℕ
seven_days_later = 604800000005000

sign-in_out_example :
    (log_in codec
        (auth_service vault)
        true
        fresh_writer
        (ask "POST" "/api/auth/login")
        (quietly accounts)
      ≡ (
        write_json (set_session_cookie "token" 100 604800000000100 true fresh_writer) 200 (
            Payload.account
              (record { expires_at = "2026-06-10T12:00:00Z"; user = to_user_profile ann })),
        in_world,
      ))
    × (ask_me vault " a@b.c" "password" accounts "a@b.c" "password" ann "token" ann_LogsIn codec
          true fresh_writer
          (ask "GET" "/api/auth/me")
          (record in_world { clock = 5000 })
        ≡ (
          write_json
              (set_session_cookie "token" 5000 seven_days_later false fresh_writer)
              200
              (Payload.profile (to_user_profile ann)),
          extended vault " a@b.c" "password" accounts "a@b.c" "password" ann "token" 5000,
        ))
    × ((now : ℕ)
        → (get_user_session_by_token_hash "digest" now
            (extended vault " a@b.c" "password" accounts "a@b.c" "password" ann "token"
              5000).tables).0
          ≡ ok (
              session_after vault " a@b.c" "password" accounts "a@b.c" "password" ann "token" 5000
                now))
    × (log_out codec
          (auth_service vault)
          true
          fresh_writer
          (ask "GET" "/api/auth/me")
          (record in_world { clock = 5000 })
        ≡ (
          write_json
              (clear_session_cookie true fresh_writer)
              200
              (Payload.words (("status", "signed_out") ∷ [])),
          out_world,
        ))
    × ((now : ℕ)
        → let world = record out_world { clock = now } in
          ask_me vault " a@b.c" "password" accounts "a@b.c" "password" ann "token" ann_LogsIn codec
            true fresh_writer
            (ask "GET" "/api/auth/me")
            world
          ≡ (write_error fresh_writer 401 "UNAUTHORIZED" "invalid or expired session", world))
sign-in_out_example =
    sign-in_out vault " a@b.c" "password" accounts "a@b.c" "password" ann "token" ann_LogsIn codec
      true fresh_writer (ask "POST" "/api/auth/login") (ask "GET" "/api/auth/me") 5000 ann-Client
      refl
