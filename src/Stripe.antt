-- ===== src/Stripe.antt =====
-- What the webhook service takes from stripe-go: the parts of an event, a checkout session and a
-- charge that it reads, and the functions that make them from bytes.
use stripe_payment_integrati.Prelude.{ℕ, String, Bool, Option}
use stripe_payment_integrati.Prelude.Int.{ℤ}
use stripe_payment_integrati.Db.{EventType}

-- `raw` is Data.Raw, the JSON of the object that the event is about.
pub record Event : Type 0 where
  pub id : String
  pub event_type : EventType
  pub raw : String

pub data SessionStatus : Type 0 where
  complete open_session expired_session : SessionStatus
  other : String → SessionStatus

pub data PaymentStatus : Type 0 where
  paid unpaid no_payment_required : PaymentStatus
  other : String → PaymentStatus

-- `payment_intent` is none for a nil pointer.
pub record CheckoutSession : Type 0 where
  pub id : String
  pub status : SessionStatus
  pub payment_status : PaymentStatus
  pub payment_intent : Option String
  pub amount_total : ℤ
  pub currency : String
  pub url : String
  pub client_secret : String

pub record Charge : Type 0 where
  pub id : String
  pub refunded : Bool
  pub payment_intent : Option String
  pub amount : ℤ
  pub currency : String

-- `construct_event body signature` is none where stripe-go's verification fails; the parsers are
-- none where the JSON does not decode; `case_fold` is the table behind strings.EqualFold.
pub record Sdk : Type 0 where
  pub construct_event : String → String → Option Event
  pub can_marshal : Event → Bool
  pub parse_session : String → Option CheckoutSession
  pub parse_charge : String → Option Charge
  pub case_fold : ℕ → ℕ
