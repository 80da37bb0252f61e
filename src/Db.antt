-- ===== src/Db.antt =====
-- backend/internal/db/models.go and the tables of backend/migrations: rows as records, a table as
-- the list of its rows. Times are nanoseconds of one clock; JSON metadata is its list of entries.
pub mod Table
pub mod Buckets
pub mod BucketLaws
pub mod Orders
pub mod NewOrders
pub mod Products
pub mod Accounts
pub mod Tokens
pub mod Webhooks
pub mod Progress
pub mod Guarantees
pub mod EventLaws
pub mod EffectLaws
pub mod OrderGuarantees
pub mod OrderRows
pub mod Soundness
use stripe_payment_integrati.Prelude.{ℕ, String, Bool, Option, List, ◌≡◌, []}
use stripe_payment_integrati.Prelude.Int.{ℤ}
use stripe_payment_integrati.Domain.{OrderStatus, WebhookStatus, UiMode}

abbrev pub Metadata : Type 0
Metadata = List (String × String)

pub record Product : Type 0 where
  pub id : String
  pub name : String
  pub description : Option String
  pub unit_amount_cents : ℤ
  pub currency : String
  pub active : Bool

pub record OrderItem : Type 0 where
  pub id : String
  pub order_id : String
  pub product_id : Option String
  pub product_name : String
  pub quantity : ℤ
  pub unit_amount_cents : ℤ
  pub line_total_cents : ℤ

-- A row of `orders`; its items stand in their own table.
pub record Order : Type 0 where
  pub id : String
  pub order_number : String
  pub idempotency_key : Option String
  pub status : OrderStatus
  pub total_amount_cents : ℤ
  pub currency : String
  pub customer_id : Option String
  pub customer_email : Option String
  pub session_id : Option String
  pub payment_intent_id : Option String
  pub checkout_url : Option String
  pub client_secret : Option String
  pub ui_mode : UiMode
  pub success_url : Option String
  pub cancel_url : Option String
  pub return_url : Option String
  pub metadata : Metadata
  pub paid_at : Option ℕ
  pub created_at : ℕ
  pub updated_at : ℕ
  pub access_token_hash : Option String

-- The event types that the service tells apart.
pub data EventType : Type 0 where
  session_completed async_payment_succeeded async_payment_failed : EventType
  session_expired charge_refunded : EventType
  other : String → EventType

pub record WebhookEvent : Type 0 where
  pub id : String
  pub stripe_event_id : String
  pub event_type : EventType
  pub order_id : Option String
  pub processing_status : WebhookStatus
  pub processed_at : Option ℕ
  pub processing_started_at : Option ℕ
  pub created_at : ℕ

pub record Customer : Type 0 where
  pub id : String
  pub email : String
  pub password_hash : String
  pub email_verified_at : Option ℕ
  pub created_at : ℕ

-- A row of `user_sessions`.
pub record SessionRow : Type 0 where
  pub id : String
  pub token_hash : String
  pub customer_id : String
  pub expires_at : ℕ
  pub revoked_at : Option ℕ

-- A row of `password_reset_tokens` or of `email_verification_tokens`.
pub record TokenRow : Type 0 where
  pub id : String
  pub token_hash : String
  pub customer_id : String
  pub expires_at : ℕ
  pub used_at : Option ℕ

-- A row of `rate_limit_buckets`.
pub record Bucket : Type 0 where
  pub bucket_key : String
  pub window_start : ℕ
  pub request_count : ℕ

pub record Tables : Type 0 where
  pub products : List Product
  pub orders : List Order
  pub items : List OrderItem
  pub events : List WebhookEvent
  pub customers : List Customer
  pub sessions : List SessionRow
  pub reset_tokens : List TokenRow
  pub verification_tokens : List TokenRow
  pub buckets : List Bucket

abbrev pub no_rows : Tables
no_rows = record {
  products = [];
  orders = [];
  items = [];
  events = [];
  customers = [];
  sessions = [];
  reset_tokens = [];
  verification_tokens = [];
  buckets = [];
}

-- A Go `error`: an application error with its HTTP status, what Postgres refuses or cannot answer,
-- and the errors that the code makes itself.
pub record AppError : Type 0 where
  pub status : ℕ
  pub code : String
  pub message : String

pub data Error : Type 0 where
  app : AppError → Error
  unique_violation check_violation out_of_range unavailable : Error
  order_not_found no_effect not_processing : Error
  malformed_payload missing_payment_intent not_refundable : Error
  missing_amount amount_mismatch missing_currency currency_mismatch : Error
  no_randomness stripe_failed canceled_context hashing_failed : Error

pub data Result {ℓ} (A : Type ℓ) : Type ℓ where
  ok : A → Result A
  err : Error → Result A

abbrev pub is_ok {ℓ} : {A : Type ℓ} → Result A → Bool
is_ok (ok a) = Bool.true
is_ok (err e) = Bool.false

-- One statement or transaction, run at a time of the clock.
abbrev pub Statement : Type 0 → Type 0
Statement A = ℕ → Tables → Result A × Tables
