-- ===== src/Http/Middleware/Limits.antt =====
-- backend/internal/middleware/ratelimit_db.go and ratelimit.go: requests per client and window.
pub mod Counting
pub mod Bound
use stripe_payment_integrati.Prelude.{
  ℕ, ◌-◌, ◌/◌, ◌%◌, String, Option, none, some, ltb, if◌then◌else◌, Bool,
}
use stripe_payment_integrati.Prelude.Text.{concat}
use stripe_payment_integrati.Db.{Result, ok, err}
use stripe_payment_integrati.World.{Run, Try, pure, bind, read_clock}
use stripe_payment_integrati.Http.{Request, Response, Writer, Handler, Middleware, Bool}
use stripe_payment_integrati.Http.Api.{write_error, set_header}
use stripe_payment_integrati.Http.Cookies.{second}

-- `split_host_port` is net.SplitHostPort, `itoa` strconv.Itoa.
pub record Net : Type 0 where
  pub split_host_port : String → Option String
  pub itoa : ℕ → String

-- middleware.RateLimitCounter
pub record RateLimitCounter : Type 0 where
  pub increment : String → ℕ → Try ℕ

-- What the counter says of a request.
pub data Admission : Type 0 where
  admitted limited uncounted : Admission

abbrev pub host_or : String → Option String → String
host_or address none = address
host_or address (some host) = host

-- time.Truncate
abbrev pub window_of : ℕ → ℕ → ℕ
window_of window now = now - now % window

-- A limit and a name, as the router gives them.
pub record Quota : Type 0 where
  pub name : String
  pub limit : ℕ
  pub window : ℕ

abbrev pub too_many : Net → Quota → Writer → Response
too_many net q w =
    write_error (set_header "Retry-After" (net.itoa (q.window / second)) w) 429 "RATE_LIMITED"
      "too many requests"

unfoldable pub judge : ℕ → Result ℕ → Admission
judge limit (err e) = Admission.uncounted
judge limit (ok count) = if ltb limit count then Admission.limited else Admission.admitted

module _ (net : Net) (counter : RateLimitCounter) (q : Quota) where
  unfoldable pub bucket_key : String → String
  bucket_key address = concat q.name (concat ":" (host_or address (net.split_host_port address)))

  -- the request is counted
  unfoldable pub admit : String → Run Admission
  admit address = bind read_clock λ now.
      bind (counter.increment (bucket_key address) (window_of q.window now))
        λ count. pure (judge q.limit count)

  unfoldable pub let_through : Handler → Writer → Request → Admission → Run Response
  let_through next w r Admission.admitted = next w r
  let_through next w r Admission.limited = pure (too_many net q w)
  let_through next w r Admission.uncounted =
      pure (write_error w 503 "RATE_LIMIT_UNAVAILABLE" "rate limit check failed")

  unfoldable pub rate_limit_by_ip_postgres : Middleware
  rate_limit_by_ip_postgres next w r = bind (admit r.remote_addr) (let_through next w r)

-- `over` is httprate's count in the process's memory: whether the request is one too many.
unfoldable pub rate_limit_by_ip : Net → (Quota → Request → Run Bool) → Quota → Middleware
rate_limit_by_ip net over q next w r =
    bind (over q r) λ o. if o then pure (too_many net q w) else next w r
