-- ===== src/Http/Middleware.antt =====
-- backend/internal/middleware: what stands between the router and a handler.
pub mod Limits
pub mod Sessions
use stripe_payment_integrati.Prelude.{
  ℕ, String, ◌==◌, Bool, true, false, Option, none, some, ◌∷◌, if◌then◌else◌, starts_with,
}
use stripe_payment_integrati.World.{Run, Try, pure, bind, new_id}
use stripe_payment_integrati.Http.{Body, Request, Response, Writer, Handler, Middleware, AuthUser}
use stripe_payment_integrati.Http.Api.{write_error, set_header}
use stripe_payment_integrati.Http.Cookies.{with_user}

unfoldable pub security_headers : Middleware
security_headers next w r =
    next
      (set_header "Referrer-Policy" "strict-origin-when-cross-origin"
        (set_header "X-Frame-Options" "DENY" (set_header "X-Content-Type-Options" "nosniff" w)))
      r

-- The header's id, or else a new one.
abbrev pub choose_id : String → Run String
choose_id given = if given == "" then new_id else pure given

unfoldable pub assign_request_id : Middleware
assign_request_id next w r =
    bind (choose_id (r.header "X-Request-ID"))
      λ id. next (set_header "X-Request-ID" id w) (record r { request_id = some id })

unfoldable pub get_request_id : Request → String
get_request_id r = id_or_empty r.request_id
  where
    id_or_empty : Option String → String
    id_or_empty none = ""
    id_or_empty (some id) = id

abbrev pub bounded : ℕ → Body → Body
bounded n b = record b { limit = some n }

unfoldable pub limit_request_body : ℕ → Middleware
limit_request_body n next w r = next w (record r { body = bounded n r.body })

unfoldable pub should_trace_request : String → Bool
should_trace_request path =
    if path == "/health"
    then false
    else if path == "/health/live"
    then false
    else if path == "/health/ready"
    then false
    else if path == "/metrics"
    then false
    else true

-- `instrument` is otelhttp.NewHandler with its filter.
unfoldable pub tracing : (String → (String → Bool) → Middleware) → String → Middleware
tracing instrument name =
    if name == "" then (λ next. next) else instrument name should_trace_request

-- subtle.ConstantTimeCompare tells whether two texts are the same.
unfoldable pub require_api_key : String → Middleware
require_api_key expected next w r =
    if expected == ""
    then pure (write_error w 403 "FORBIDDEN" "endpoint disabled")
    else if r.header "X-API-Key" == expected
    then next w r
    else pure (write_error w 401 "UNAUTHORIZED" "invalid api key")
