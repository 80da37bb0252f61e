-- ===== src/Http/Handlers.antt =====
-- backend/internal/handler: the services that the handlers call (services.go), and what each handler
-- does with a body and with the answer of a service.
pub mod Accounts
pub mod Keeping
pub mod Shape
pub mod Orders
pub mod Catalog
pub mod Webhooks
use stripe_payment_integrati.Prelude.{
  ℕ, String, Bool, true, false, Option, none, some, List, ltb, if◌then◌else◌,
}
use stripe_payment_integrati.Prelude.Text.{len}
use stripe_payment_integrati.Db.{Result, ok, err, Order, OrderItem, Product}
use stripe_payment_integrati.World.{Run, Try, World, pure, bind}
use stripe_payment_integrati.Auth.{UserProfile, UserSessionResult}
use stripe_payment_integrati.Checkout.{CreateCheckoutInput, CheckoutResult}
use stripe_payment_integrati.Webhook.{WebhookOutcome}
use stripe_payment_integrati.Http.{Body, Request, Response, Writer, Handler}
use stripe_payment_integrati.Http.Api.{write_error, write_service_error, write_body_too_large}

pub record ProductCatalog : Type 0 where
  pub list_products : Try (List Product)

pub record OrderService : Type 0 where
  pub create_checkout_session : String → CreateCheckoutInput → Try CheckoutResult
  pub get_order : String → String → Try (Option (Order × List OrderItem))
  pub get_order_by_session : String → String → Try (Option (Order × List OrderItem))
  pub list_orders_for_user : String → Try (List Order)

pub record WebhookProcessor : Type 0 where
  pub handle : String → String → Try WebhookOutcome

pub record UserAuthenticator : Type 0 where
  pub register : String → String → Try UserSessionResult
  pub login : String → String → Try UserSessionResult
  pub logout : String → Try (Unit {0})
  pub get_user : String → Try UserProfile
  pub request_password_reset : String → Try (Unit {0})
  pub reset_password : String → String → Try (Unit {0})
  pub verify_email : String → Try (Unit {0})

pub record HealthStore : Type 0 where
  pub ping : Try (Unit {0})

pub record CredentialsRequest : Type 0 where
  pub email : String
  pub password : String

pub record EmailRequest : Type 0 where
  pub email : String

pub record ResetPasswordRequest : Type 0 where
  pub token : String
  pub password : String

pub record VerifyEmailRequest : Type 0 where
  pub token : String

-- What reading a body gives: an error may be that of http.MaxBytesReader or any other.
pub data Decoded (A : Type 0) : Type 0 where
  decoded : A → Decoded A
  too_large unreadable : Decoded A

-- encoding/json and the formats of the standard library. `event_type` is the "type" of a JSON object.
pub record Codec : Type 0 where
  pub decode_credentials : Body → Decoded CredentialsRequest
  pub decode_email : Body → Decoded EmailRequest
  pub decode_reset : Body → Decoded ResetPasswordRequest
  pub decode_verify : Body → Decoded VerifyEmailRequest
  pub decode_checkout : Body → Decoded CreateCheckoutInput
  pub event_type : String → Option String
  pub to_lower : String → String
  pub format_time : ℕ → String

abbrev pub over_limit : Body → Option ℕ → Bool
over_limit b none = false
over_limit b (some n) = ltb n (len b.content)

-- io.ReadAll
unfoldable pub read_all : Body → Decoded String
read_all b =
    if over_limit b b.limit
    then Decoded.too_large
    else if b.intact
    then Decoded.decoded b.content
    else Decoded.unreadable

-- A body that is read, or the answer to one that is not; `text` says what failed.
unfoldable pub with_body : {A : Type 0} → String → Decoded A → (A → Handler) → Handler
with_body text (Decoded.decoded a) next w r = next a w r
with_body text Decoded.too_large next w r = pure (write_body_too_large w)
with_body text Decoded.unreadable next w r = pure (write_error w 400 "VALIDATION_ERROR" text)

unfoldable pub answer : {A : Type 0} → Writer → Result A → (A → Run Response) → Run Response
answer w (ok a) next = next a
answer w (err e) next = pure (write_service_error w e)

-- the call of a service, and what is written where it succeeds
unfoldable pub serve : {A : Type 0} → Writer → Try A → (A → Run Response) → Run Response
unfolding answer
serve w service next = bind service λ res. answer w res next

abbrev pub invalid_json_body : String
invalid_json_body = "invalid json body"
