-- ===== src/Checkout/Validation.antt =====
-- backend/internal/service/checkout_validation.go.
pub mod Basket
pub mod Accepted
use stripe_payment_integrati.Prelude.{
  ℕ, String, ◌==◌, ◌≡◌, refl, Bool, true, false, ◌&&◌, ◌||◌, not, Option, none, some, List, [], ◌∷◌,
  if◌then◌else◌, ltb, eqb, starts_with, length,
}
use stripe_payment_integrati.Prelude.Int.{ℤ, pos, ltb_ℤ}
use stripe_payment_integrati.Prelude.Text.{trim_space, len}
use stripe_payment_integrati.Domain.{valid_ui_mode}
use stripe_payment_integrati.Db.{Metadata, Error, Result, ok, err}
use stripe_payment_integrati.Checkout.{
  CheckoutItemInput, CreateCheckoutInput, Host, validation_error,
}

abbrev pub max_checkout_items : ℕ
max_checkout_items = 20

abbrev pub max_item_quantity : ℤ
max_item_quantity = pos 99

abbrev pub max_idempotency_key_len : ℕ
max_idempotency_key_len = 128

abbrev pub max_customer_email_len : ℕ
max_customer_email_len = 254

abbrev pub max_metadata_key_len : ℕ
max_metadata_key_len = 40

-- a guard: the error if the test holds
abbrev pub reject_if : Bool → Error → Result (Unit {0}) → Result (Unit {0})
reject_if true e rest = err e
reject_if false e rest = rest

abbrev pub seen : String → List String → Bool
seen k [] = false
seen k (j ∷ l) = (j == k) || seen k l

-- the loop over the items, with the products seen so far
unfoldable pub validate_items :
    List CheckoutItemInput → List String → Result (Unit {0}) → Result (Unit {0})
validate_items [] products rest = rest
validate_items (i ∷ items) products rest =
    reject_if (trim_space i.product_id == "") (validation_error "productId required") (
      reject_if (ltb_ℤ i.quantity (pos 1) || ltb_ℤ max_item_quantity i.quantity)
        (validation_error "quantity must be between 1 and 99")
        (reject_if (seen i.product_id products) (validation_error "duplicate productId in items")
          (validate_items items (i.product_id ∷ products) rest)))

unfoldable pub validate_entries : Metadata → Result (Unit {0})
validate_entries [] = ok tt
validate_entries ((key, value) ∷ m) =
    reject_if (starts_with key "_") (validation_error "metadata keys cannot start with underscore")
      (reject_if (ltb max_metadata_key_len (len key)) (validation_error "metadata key too long") (
        reject_if (ltb 500 (len value)) (validation_error "metadata value exceeds 500 chars")
          (validate_entries m)))

unfoldable pub validate_metadata : Metadata → Result (Unit {0})
validate_metadata m =
    reject_if (ltb 50 (length m)) (validation_error "metadata exceeds 50 keys") (validate_entries m)

unfoldable pub validate_checkout_input : Host → CreateCheckoutInput → Result (Unit {0})
validate_checkout_input host input =
    reject_if (not (valid_ui_mode input.ui_mode))
      (validation_error "uiMode must be hosted or embedded")
      (reject_if (eqb (length input.items) 0) (validation_error "items required") (
        reject_if (ltb max_checkout_items (length input.items))
          (validation_error "too many line items")
          (reject_if
            (not (input.customer_email == "")
              && ltb max_customer_email_len (len input.customer_email))
            (validation_error "customerEmail too long")
            (reject_if
              (not (input.customer_email == "") && not (host.parses_address input.customer_email))
              (validation_error "customerEmail invalid")
              (validate_items input.items [] (validate_metadata input.metadata))))))

unfoldable pub validate_idempotency_key : String → Result (Unit {0})
validate_idempotency_key key =
    reject_if (not (key == "") && ltb max_idempotency_key_len (len key))
      (validation_error "Idempotency-Key too long") (ok tt)
