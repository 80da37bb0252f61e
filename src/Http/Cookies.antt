-- ===== src/Http/Cookies.antt =====
-- backend/internal/auth/cookie.go and context.go.
use stripe_payment_integrati.Prelude.{
  ℕ, ◌-◌, ◌/◌, String, ◌==◌, Bool, true, ◌||◌, Option, none, some, [], ◌∷◌, ◌++◌, leb,
  if◌then◌else◌, or_empty,
}
use stripe_payment_integrati.Prelude.Int.{ℤ, pos, sub_ℕ}
use stripe_payment_integrati.Http.{Writer, Request, Cookie, AuthUser}

abbrev pub session_cookie_name : String
session_cookie_name = "session"

abbrev pub second : ℕ
second = 1000000000

-- int(time.Until(t).Seconds()) at a time: whole seconds, rounded towards 0
unfoldable pub seconds_until : ℕ → ℕ → ℤ
seconds_until now t = if leb now t then pos ((t - now) / second) else sub_ℕ 0 ((now - t) / second)

abbrev pub session_cookie : String → ℕ → ℕ → Bool → Cookie
session_cookie token now expires secure = record {
  name = session_cookie_name;
  value = token;
  path = "/";
  expires = some expires;
  max_age = seconds_until now expires;
  http_only = true;
  same_site_lax = true;
  secure = secure;
}

abbrev pub cleared_cookie : Bool → Cookie
cleared_cookie secure = record {
  name = session_cookie_name;
  value = "";
  path = "/";
  expires = none;
  max_age = sub_ℕ 0 1;
  http_only = true;
  same_site_lax = true;
  secure = secure;
}

-- http.SetCookie adds a header.
abbrev pub set_cookie : Cookie → Writer → Writer
set_cookie c w = record w { cookies = w.cookies ++ c ∷ [] }

unfoldable pub set_session_cookie : String → ℕ → ℕ → Bool → Writer → Writer
set_session_cookie token now expires secure w =
    set_cookie (session_cookie token now expires secure) w

unfoldable pub clear_session_cookie : Bool → Writer → Writer
clear_session_cookie secure w = set_cookie (cleared_cookie secure) w

unfoldable pub session_token_from_request : Request → String
session_token_from_request r = or_empty (r.cookie session_cookie_name)

unfoldable pub with_user : AuthUser → Request → Request
with_user u r = record r { user = some u }

unfoldable pub identified : AuthUser → Option AuthUser
identified u = if (u.id == "") || (u.email == "") then none else some u

unfoldable pub known : Option AuthUser → Option AuthUser
unfolding identified
known none = none
known (some u) = identified u

unfoldable pub user_from_context : Request → Option AuthUser
unfolding known
user_from_context r = known r.user
