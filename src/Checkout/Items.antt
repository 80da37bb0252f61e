-- ===== src/Checkout/Items.antt =====
-- backend/internal/service/checkout.go, buildCheckoutLineItems.
pub mod Keeping
pub mod Totals
use stripe_payment_integrati.Prelude.{
  ℕ, String, ◌==◌, ◌≡◌, refl, Bool, true, false, Option, none, some, List, [], ◌∷◌, ◌++◌, map,
  if◌then◌else◌,
}
use stripe_payment_integrati.Prelude.Int.{ℤ, pos, int32, ◌+ℤ◌, ◌*ℤ◌}
use stripe_payment_integrati.Prelude.Text.{concat}
use stripe_payment_integrati.Db.{Product, Error, Result, ok, err}
use stripe_payment_integrati.Db.Table.{find_row, with_key}
use stripe_payment_integrati.Db.NewOrders.{CreateOrderItemParams}
use stripe_payment_integrati.Db.Products.{get_products_by_ids}
use stripe_payment_integrati.World.{Run, Try, World, pure, bind, continue, try_bind, call, new_id}
use stripe_payment_integrati.Checkout.{CheckoutItemInput, StripeLine, validation_error}

pub record LineItems : Type 0 where
  pub currency : String
  pub total : ℤ
  pub stripe : List StripeLine
  pub db : List CreateOrderItemParams

abbrev pub no_items : LineItems
no_items = record { currency = ""; total = pos 0; stripe = []; db = [] }

abbrev pub product_not_found : String → Error
product_not_found id =
    Error.app (record {
      status = 404;
      code = "PRODUCT_NOT_FOUND";
      message = concat "product not found: " id;
    })

abbrev non_empty : Option String → Option String
non_empty none = none
non_empty (some s) = if s == "" then none else some s

abbrev pub stripe_line : Product → CheckoutItemInput → StripeLine
stripe_line p i = record {
  name = p.name;
  description = non_empty p.description;
  currency = p.currency;
  unit_amount = p.unit_amount_cents;
  quantity = i.quantity;
}

abbrev pub line_total : Product → CheckoutItemInput → ℤ
line_total p i = int32 (p.unit_amount_cents *ℤ i.quantity)

-- `order_id` is filled in when the order is inserted
abbrev pub db_line : Product → CheckoutItemInput → String → CreateOrderItemParams
db_line p i id = record {
  id = id;
  order_id = "";
  product_id = p.id;
  product_name = p.name;
  quantity = i.quantity;
  unit_amount_cents = p.unit_amount_cents;
  line_total_cents = line_total p i;
}

abbrev pub add_line : LineItems → String → Product → CheckoutItemInput → String → LineItems
add_line r currency p i id = record {
  currency = currency;
  total = int32 (r.total +ℤ line_total p i);
  stripe = r.stripe ++ stripe_line p i ∷ [];
  db = r.db ++ db_line p i id ∷ [];
}

-- the currency of the first product, and then that of all
abbrev pub line_currency : Bool → LineItems → Product → Result String
line_currency true r p = ok p.currency
line_currency false r p =
    if p.currency == r.currency
    then ok r.currency
    else err (validation_error "mixed currency not allowed")

abbrev pub with_currency : Product → Result String → Result (Product × String)
with_currency p (ok c) = ok (p, c)
with_currency p (err e) = err e

abbrev pub priced :
    Bool → LineItems → CheckoutItemInput → Option Product → Result (Product × String)
priced first r i none = err (product_not_found i.product_id)
priced first r i (some p) = with_currency p (line_currency first r p)

-- the loop over the items
unfoldable pub add_items : List Product → Bool → LineItems → List CheckoutItemInput → Try LineItems
add_items products first r [] = pure (ok r)
add_items products first r (i ∷ items) =
    try_bind (pure (priced first r i (find_row (with_key (λ p. p.id) i.product_id) products)))
      λ (pc : Product × String).
        bind new_id λ id. add_items products false (add_line r pc.1 pc.0 i id) items

unfoldable pub build_checkout_line_items : List CheckoutItemInput → Try LineItems
build_checkout_line_items items =
    try_bind (call (get_products_by_ids (map (λ i. i.product_id) items)))
      λ products. add_items products true no_items items
