-- ===== src/Checkout.antt =====
-- backend/internal/service: what a client sends for a checkout, and what the service takes from the
-- libraries and from Stripe.
pub mod Validation
pub mod Canonical
pub mod Items
pub mod Access
pub mod Replay
pub mod Session
pub mod Create
use stripe_payment_integrati.Prelude.{ℕ, String, Bool, Option, List, ◌≡◌, none, some}
use stripe_payment_integrati.Prelude.Int.{ℤ}
use stripe_payment_integrati.Domain.{UiMode}
use stripe_payment_integrati.Db.{Metadata, AppError, Error, Result}
use stripe_payment_integrati.Stripe.{CheckoutSession}

pub record CheckoutItemInput : Type 0 where
  pub product_id : String
  pub quantity : ℤ

-- `metadata` lists the entries of the Go map in the order in which a `range` visits them.
pub record CreateCheckoutInput : Type 0 where
  pub ui_mode : UiMode
  pub items : List CheckoutItemInput
  pub customer_email : String
  pub metadata : Metadata

pub record CheckoutResult : Type 0 where
  pub order_id : String
  pub order_number : String
  pub session_id : String
  pub url : String
  pub client_secret : String
  pub access_token : String

pub record StripeLine : Type 0 where
  pub name : String
  pub description : Option String
  pub currency : String
  pub unit_amount : ℤ
  pub quantity : ℤ

-- stripe.CheckoutSessionParams, as far as the service fills them in.
pub record SessionParams : Type 0 where
  pub ui_mode : String
  pub lines : List StripeLine
  pub client_reference_id : String
  pub metadata : Metadata
  pub customer_email : Option String
  pub success_url : Option String
  pub cancel_url : Option String
  pub return_url : Option String

-- The body whose JSON is hashed.
pub record CanonicalBody : Type 0 where
  pub ui_mode : UiMode
  pub items : List CheckoutItemInput
  pub customer_email : String
  pub metadata : Metadata

-- `digest` is hex(SHA-256), `body_digest` that of the body's JSON, `parses_address` whether
-- mail.ParseAddress accepts, `is_xid` whether xid.FromString does, `format_date` time.Format("20060102")
-- and `to_upper` strings.ToUpper. Stripe's two calls answer what they like.
pub record Host : Type 0 where
  pub digest : String → String
  pub body_digest : CanonicalBody → String
  pub parses_address : String → Bool
  pub is_xid : String → Bool
  pub format_date : ℕ → String
  pub to_upper : String → String
  pub create_session : SessionParams → String → Result CheckoutSession
  pub expire_session : String → Result (Unit {0})

abbrev pub validation_error : String → Error
validation_error text =
    Error.app (record { status = 400; code = "VALIDATION_ERROR"; message = text })
