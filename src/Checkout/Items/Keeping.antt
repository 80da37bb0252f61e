-- ===== src/Checkout/Items/Keeping.antt =====
-- Building the lines keeps every relation between tables.
use stripe_payment_integrati.Db.Table.{find_row, with_key}
use stripe_payment_integrati.Db.Products.{get_products_by_ids}
use stripe_payment_integrati.Checkout.Items.{
  add_items, build_checkout_line_items, LineItems, get_products_by_ids, priced, no_items, find_row,
  with_key, add_line,
}
use stripe_payment_integrati.Prelude.{Bool, true, false, refl, ◌∷◌, [], List, map}
use stripe_payment_integrati.Db.{Tables, Product, ok}
use stripe_payment_integrati.Rules.{OrderRules}
use stripe_payment_integrati.World.{call}
use stripe_payment_integrati.World.Keeps.{
  Keeps, Keeps-pure, Keeps-bind, Keeps-new_id, Keeps-try_bind, Keeps-read, Keeps-given,
}
use stripe_payment_integrati.Checkout.{CheckoutItemInput}

module _ {R : Tables → Tables → Type 0} (rules : OrderRules R) where
  add_items-Keeps :
      (products : List Product) (first : Bool) (r : LineItems) (items : List CheckoutItemInput)
      → Keeps R (add_items products first r items)
  unfolding add_items
  add_items-Keeps products first r [] = Keeps-pure rules.order (ok r)
  add_items-Keeps products first r (i ∷ items) =
      Keeps-given rules.order
        (priced first r i (find_row (with_key (λ p. p.id) i.product_id) products)) _
        λ pc.
          Keeps-bind rules.order _ _ (Keeps-new_id rules.order)
            λ id. add_items-Keeps products false (add_line r pc.1 pc.0 i id) items

  pub lines-Keeps : (items : List CheckoutItemInput) → Keeps R (build_checkout_line_items items)
  unfolding build_checkout_line_items get_products_by_ids
  lines-Keeps items =
      Keeps-try_bind rules.order (call (get_products_by_ids (map (λ i. i.product_id) items))) _
        (Keeps-read rules.order (get_products_by_ids (map (λ i. i.product_id) items))
          (λ t db. refl))
        (λ products. add_items-Keeps products true no_items items)
