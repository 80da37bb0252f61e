-- ===== src/Db/Soundness.antt =====
-- The shape of a store that the program has filled: the constraints of the migrations, and what the
-- statements add to them.
pub mod Rows
pub mod Events
pub mod Orders
pub mod Accounts
use stripe_payment_integrati.Prelude.{
  ℕ, String, ◌≡◌, refl, Bool, true, Option, none, some, List, [], ◌∷◌, is_some,
}
use stripe_payment_integrati.Prelude.Int.{ℤ, pos, ltb_ℤ}
use stripe_payment_integrati.Domain.{valid_ui_mode, UiMode, OrderStatus}
use stripe_payment_integrati.Db.{Tables, Order, WebhookEvent, Customer, SessionRow}
use stripe_payment_integrati.Db.Table.{Keyed}
use stripe_payment_integrati.Db.Webhooks.{is_settled}
use stripe_payment_integrati.World.Keeps.{Preorder}

module _ {A : Type 0} (P : A → Type 0) where
  abbrev pub Every : List A → Type 0
  Every [] = Unit
  Every (a ∷ t) = P a × Every t

-- An order has a positive amount and a known mode, no customer, and, once it is paid or refunded, a time
-- of payment.
pub record OkColumns (total : ℤ) (ui_mode : UiMode) (customer : Option String)
    (status : OrderStatus) (paid_at : Option ℕ) : Type 0 where
  pub positive : ltb_ℤ (pos 0) total ≡ true
  pub known_mode : valid_ui_mode ui_mode ≡ true
  pub unowned : customer ≡ none
  pub stamped : is_settled status ≡ true → is_some paid_at ≡ true

abbrev pub OrderOk : Order → Type 0
OrderOk o = OkColumns o.total_amount_cents o.ui_mode o.customer_id o.status o.paid_at

pub record SoundRows (orders : List Order) (events : List WebhookEvent) (customers : List Customer)
    (sessions : List SessionRow) : Type 0 where
  pub orders_ok : Every OrderOk orders
  pub orders_keyed : Keyed (λ o. o.id) orders
  pub events_keyed : Keyed (λ e. e.stripe_event_id) events
  pub customers_keyed : Keyed (λ c. c.id) customers
  pub sessions_keyed : Keyed (λ s. s.token_hash) sessions

abbrev pub Sound : Tables → Type 0
Sound db = SoundRows db.orders db.events db.customers db.sessions

-- A sound store stays sound.
abbrev pub StaysSound : Tables → Tables → Type 0
StaysSound a b = Sound a → Sound b

pub StaysSound-preorder : Preorder StaysSound
StaysSound-preorder = record { refl_at = λ db s. s; trans = λ f g s. g (f s) }
