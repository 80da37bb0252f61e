-- ===== src/Http.antt =====
-- backend/internal/api and net/http: what a request holds, what a handler writes, and the envelope in
-- which every JSON answer stands.
pub mod Api
pub mod Cookies
pub mod Handlers
pub mod Middleware
pub mod Router
use stripe_payment_integrati.Prelude.{ℕ, String, Bool, Option, none, some, List, [], ◌∷◌}
use stripe_payment_integrati.Prelude.Int.{ℤ}
use stripe_payment_integrati.Domain.{OrderStatus}
use stripe_payment_integrati.Db.{AppError}
use stripe_payment_integrati.World.{Run}
use stripe_payment_integrati.Auth.{UserProfile}
use stripe_payment_integrati.Checkout.{CheckoutResult}

-- `content` is what the client sends before it ends the body, or, where the body is not `intact`, breaks
-- it off. `limit` is the bound of http.MaxBytesReader.
pub record Body : Type 0 where
  pub content : String
  pub intact : Bool
  pub limit : Option ℕ

-- auth.UserSession, the user that a middleware puts on the context
pub record AuthUser : Type 0 where
  pub id : String
  pub email : String

-- `header` is Header.Get, "" where the header is missing; `cookie` is r.Cookie; `param` is chi.URLParam.
-- `user` and `request_id` are the values of the context.
pub record Request : Type 0 where
  pub method : String
  pub path : String
  pub header : String → String
  pub cookie : String → Option String
  pub param : String → String
  pub remote_addr : String
  pub tls : Bool
  pub body : Body
  pub user : Option AuthUser
  pub request_id : Option String

pub record Cookie : Type 0 where
  pub name : String
  pub value : String
  pub path : String
  pub expires : Option ℕ
  pub max_age : ℤ
  pub http_only : Bool
  pub same_site_lax : Bool
  pub secure : Bool

pub record ProductResponse : Type 0 where
  pub id : String
  pub name : String
  pub description : Option String
  pub unit_amount_cents : ℤ
  pub currency : String

pub record OrderItemResponse : Type 0 where
  pub product_name : String
  pub quantity : ℤ
  pub line_total_cents : ℤ

pub record OrderResponse : Type 0 where
  pub id : String
  pub order_number : String
  pub status : OrderStatus
  pub total_amount_cents : ℤ
  pub currency : String
  pub paid_at : Option String
  pub items : List OrderItemResponse

pub record AuthSessionResponse : Type 0 where
  pub expires_at : String
  pub user : UserProfile

-- The values that the handlers put under "data"; `words` is a map[string]string.
pub data Payload : Type 0 where
  words : List (String × String) → Payload
  account : AuthSessionResponse → Payload
  profile : UserProfile → Payload
  checkout : CheckoutResult → Payload
  one_order : OrderResponse → Payload
  orders : List OrderResponse → Payload
  products : List ProductResponse → Payload
  received : Bool → Payload

pub record ErrorBody : Type 0 where
  pub code : String
  pub message : String

pub record Envelope : Type 0 where
  pub payload : Option Payload
  pub error : Option ErrorBody

-- A body is an envelope, or a text that a library writes.
pub data Content : Type 0 where
  json : Envelope → Content
  text : String → Content

-- The increments of the Prometheus counters.
pub data Count : Type 0 where
  checkout_sessions : String → Count
  webhook_events : String → String → Count

-- http.ResponseWriter before the status is written: the headers and cookies that are set so far.
pub record Writer : Type 0 where
  pub headers : List (String × String)
  pub cookies : List Cookie

pub record Response : Type 0 where
  pub status : ℕ
  pub headers : List (String × String)
  pub cookies : List Cookie
  pub content : Content
  pub counts : List Count

abbrev pub fresh_writer : Writer
fresh_writer = record { headers = []; cookies = [] }

abbrev pub Handler : Type 0
Handler = Writer → Request → Run Response

abbrev pub Middleware : Type 0
Middleware = Handler → Handler
