-- ===== src/Checkout/Session.antt =====
-- backend/internal/service/checkout.go: the pending order, the Stripe session, its storing with up to
-- three attempts, and what is undone when a step fails.
pub mod Keeping
pub mod Storing
pub mod Opening
use stripe_payment_integrati.Prelude.{
  ℕ, zero, suc, ◌+◌, String, Bool, Option, none, some, [], ◌∷◌, if◌then◌else◌,
}
use stripe_payment_integrati.Prelude.Text.{concat, trim_slashes}
use stripe_payment_integrati.Domain.{UiMode, is_hosted, stripe_ui_mode}
use stripe_payment_integrati.Db.{Metadata, Error, Result, ok, err, canceled_context}
use stripe_payment_integrati.Db.Orders.{
  null_if_empty, set_entry, update_order_session, cancel_order,
}
use stripe_payment_integrati.Db.NewOrders.{CreateOrderParams, CreateOrderItemParams}
use stripe_payment_integrati.World.{Run, Try, pure, bind, call}
use stripe_payment_integrati.Stripe.{CheckoutSession}
use stripe_payment_integrati.Checkout.{CreateCheckoutInput, CheckoutResult, SessionParams, Host}
use stripe_payment_integrati.Checkout.Items.{LineItems}

abbrev pub stripe_error : String → Error
stripe_error text = Error.app (record { status = 502; code = "STRIPE_ERROR"; message = text })

unfoldable pub generate_order_number : Host → ℕ → String → String
generate_order_number host now id =
    concat "ORD-" (concat (host.format_date now) (concat "-" (host.to_upper id)))

pub record CheckoutUrls : Type 0 where
  pub success_url : Option String
  pub cancel_url : Option String
  pub return_url : Option String

-- NewOrderService cuts the slashes off the end of the frontend's URL.
unfoldable pub build_checkout_urls : String → UiMode → CheckoutUrls
build_checkout_urls frontend mode =
    if is_hosted mode
    then record {
      success_url =
          some
            (concat (trim_slashes frontend) "/checkout/success?session_id={CHECKOUT_SESSION_ID}");
      cancel_url = some (concat (trim_slashes frontend) "/checkout/cancel");
      return_url = none;
    }
    else record {
      success_url = none;
      cancel_url = none;
      return_url = some (concat (trim_slashes frontend) "/checkout/complete");
    }

abbrev pub for_order : String → CreateOrderItemParams → CreateOrderItemParams
for_order id p = record p { order_id = id }

unfoldable pub pending_order :
    String
    → String
    → String
    → String
    → String
    → CreateCheckoutInput
    → LineItems
    → CheckoutUrls
    → CreateOrderParams
pending_order id number body_hash token_hash key input lines urls = record {
  id = id;
  order_number = number;
  idempotency_key = null_if_empty key;
  total_amount_cents = lines.total;
  currency = lines.currency;
  customer_email = null_if_empty input.customer_email;
  ui_mode = input.ui_mode;
  success_url = urls.success_url;
  cancel_url = urls.cancel_url;
  return_url = urls.return_url;
  metadata = input.metadata;
  request_body_hash = body_hash;
  access_token_hash = token_hash;
}

-- the client's entries are written over the two of the service
unfoldable pub stripe_metadata : String → String → Metadata → Metadata
stripe_metadata id number [] = ("order_id", id) ∷ ("order_number", number) ∷ []
stripe_metadata id number ((k, v) ∷ m) = set_entry k v (stripe_metadata id number m)

unfoldable pub build_stripe_session_params :
    String → String → CreateCheckoutInput → LineItems → CheckoutUrls → SessionParams
build_stripe_session_params id number input lines urls = record {
  ui_mode = stripe_ui_mode input.ui_mode;
  lines = lines.stripe;
  client_reference_id = number;
  metadata = stripe_metadata id number input.metadata;
  customer_email = null_if_empty input.customer_email;
  success_url = if is_hosted input.ui_mode then urls.success_url else none;
  cancel_url = if is_hosted input.ui_mode then urls.cancel_url else none;
  return_url = if is_hosted input.ui_mode then none else urls.return_url;
}

unfoldable pub build_checkout_result :
    String → String → UiMode → CheckoutSession → String → CheckoutResult
build_checkout_result id number mode s token = record {
  order_id = id;
  order_number = number;
  session_id = s.id;
  url = if is_hosted mode then s.url else "";
  client_secret = if is_hosted mode then "" else s.client_secret;
  access_token = token;
}

-- after an attempt: the request may be canceled while the service waits
after_attempt : Bool → (Error → Try (Unit {0})) → Result (Unit {0}) → Try (Unit {0})
after_attempt canceled again (ok u) = pure (ok u)
after_attempt canceled again (err e) = if canceled then pure (err canceled_context) else again e

-- `canceled n` is whether the request is canceled while the service waits after attempt `n`; the
-- attempts left come first, and `last` is the error of the last one.
unfoldable pub persist_attempts :
    ℕ → ℕ → (ℕ → Bool) → String → CheckoutSession → Error → Try (Unit {0})
unfolding after_attempt
persist_attempts zero attempt canceled id s last = pure (err last)
persist_attempts (suc n) attempt canceled id s last =
    bind (call (update_order_session id s.id s.url s.client_secret))
      (after_attempt (canceled attempt) (λ e. persist_attempts n (attempt + 1) canceled id s e))

unfoldable pub persist_session_with_retry : (ℕ → Bool) → String → CheckoutSession → Try (Unit {0})
unfolding persist_attempts
persist_session_with_retry canceled id s = persist_attempts 3 0 canceled id s canceled_context

-- A record of the parts of one request that the steps share.
pub record Draft : Type 0 where
  pub id : String
  pub number : String
  pub body_hash : String
  pub token : String
  pub token_hash : String
  pub key : String
  pub input : CreateCheckoutInput
  pub lines : LineItems
  pub urls : CheckoutUrls

module _ (host : Host) (canceled : ℕ → Bool) where
  abbrev pub expire_checkout_session : String → Try (Unit {0})
  expire_checkout_session session w =
      (host.expire_session session, record w { expired = session ∷ w.expired })

  -- Both calls may fail, which is only logged.
  unfoldable pub compensate_failed_checkout : String → String → Run (Unit {0})
  compensate_failed_checkout id session =
      bind (expire_checkout_session session)
        λ _. bind (call (cancel_order id "persist_failed")) λ _. pure tt

  after_persist : Draft → CheckoutSession → Result (Unit {0}) → Try CheckoutResult
  after_persist d s (ok _) =
      pure (ok (build_checkout_result d.id d.number d.input.ui_mode s d.token))
  after_persist d s (err e) =
      bind (compensate_failed_checkout d.id s.id)
        λ _. pure (err (stripe_error "failed to persist checkout session"))

  after_stripe : Draft → Result CheckoutSession → Try CheckoutResult
  after_stripe d (ok s) = bind (persist_session_with_retry canceled d.id s) (after_persist d s)
  after_stripe d (err e) =
      bind (call (cancel_order d.id "stripe_api_error"))
        λ _. pure (err (stripe_error "failed to create checkout session"))

  unfoldable pub open_session : Draft → Try CheckoutResult
  unfolding after_stripe after_persist
  open_session d =
      after_stripe d (
        host.create_session (build_stripe_session_params d.id d.number d.input d.lines d.urls) d.id)
