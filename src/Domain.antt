-- ===== src/Domain.antt =====
-- backend/internal/domain: the status words of orders and webhook events, the checkout modes, and
-- the test by which an update that matched no row counts as done.
pub mod Lifecycle
use stripe_payment_integrati.Prelude.{ℕ, String, ◌==◌, Bool, true, false, ◌||◌, eqb, if◌then◌else◌}

pub data OrderStatus : Type 0 where
  pending processing paid failed expired canceled refunded : OrderStatus

abbrev pub order_code : OrderStatus → ℕ
order_code OrderStatus.pending = 0
order_code OrderStatus.processing = 1
order_code OrderStatus.paid = 2
order_code OrderStatus.failed = 3
order_code OrderStatus.expired = 4
order_code OrderStatus.canceled = 5
order_code OrderStatus.refunded = 6

-- Go's `==` on two status words
abbrev pub same_status : OrderStatus → OrderStatus → Bool
same_status a b = eqb (order_code a) (order_code b)

pub data WebhookStatus : Type 0 where
  received processing processed ignored failed : WebhookStatus

abbrev pub is_processing : WebhookStatus → Bool
is_processing WebhookStatus.processing = true
is_processing _ = false

-- A ui mode is one of two words, or any other text that a client sends.
pub data UiMode : Type 0 where
  hosted embedded : UiMode
  other : String → UiMode

abbrev pub valid_ui_mode : UiMode → Bool
valid_ui_mode UiMode.hosted = true
valid_ui_mode UiMode.embedded = true
valid_ui_mode (UiMode.other s) = false

abbrev pub is_hosted : UiMode → Bool
is_hosted UiMode.hosted = true
is_hosted _ = false

abbrev pub is_embedded : UiMode → Bool
is_embedded UiMode.embedded = true
is_embedded _ = false

unfoldable pub stripe_ui_mode : UiMode → String
stripe_ui_mode UiMode.hosted = "hosted_page"
stripe_ui_mode UiMode.embedded = "embedded_page"
stripe_ui_mode (UiMode.other s) = s

-- the `switch` on the target status
unfoldable pub advanced_past : OrderStatus → OrderStatus → Bool
advanced_past current OrderStatus.processing =
    same_status current OrderStatus.paid || same_status current OrderStatus.refunded
advanced_past current OrderStatus.paid = same_status current OrderStatus.refunded
advanced_past current OrderStatus.failed =
    same_status current OrderStatus.paid || same_status current OrderStatus.refunded
advanced_past current OrderStatus.expired =
    same_status current OrderStatus.paid || same_status current OrderStatus.refunded
advanced_past current _ = false

unfoldable pub effect_satisfied : OrderStatus → OrderStatus → Bool → Bool
unfolding advanced_past
effect_satisfied current target refund_only =
    if refund_only
    then same_status current OrderStatus.refunded
    else if same_status current target
    then true
    else advanced_past current target
