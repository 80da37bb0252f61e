-- ===== src/World/Scan.antt =====
-- backend/internal/db/orders.go, scanOrder: a query for one order, and a second one for its items.
use stripe_payment_integrati.Prelude.{◌≡◌, ℕ, Option, none, some, List, refl}
use stripe_payment_integrati.Db.{Order, OrderItem, Tables, Statement, ok}
use stripe_payment_integrati.Db.Orders.{list_order_items}
use stripe_payment_integrati.World.{Try, pure, try_bind, call}
use stripe_payment_integrati.World.Keeps.{Preorder, Keeps, Keeps-pure, Keeps-try_bind, Keeps-read}

unfoldable pub with_items : Option Order → Try (Option (Order × List OrderItem))
with_items none = pure (ok none)
with_items (some o) = try_bind (call (list_order_items o.id)) λ items. pure (ok (some (o, items)))

unfoldable pub scan_order : Statement (Option Order) → Try (Option (Order × List OrderItem))
unfolding with_items
scan_order query = try_bind (call query) with_items

-- the order, for a caller that does not look at its items
abbrev pub row_of : Option (Order × List OrderItem) → Option Order
row_of none = none
row_of (some (o, items)) = some o

module _ {R : Tables → Tables → Type 0} (order : Preorder R) where
  items-Keeps : (o : Option Order) → Keeps R (with_items o)
  unfolding with_items list_order_items
  items-Keeps none = Keeps-pure order (ok none)
  items-Keeps (some o) =
      Keeps-try_bind order (call (list_order_items o.id)) _
        (Keeps-read order (list_order_items o.id) (λ t db. refl))
        (λ items. Keeps-pure order (ok (some (o, items))))

  pub scan-Keeps :
      (query : Statement (Option Order))
      → ((t : ℕ) (db : Tables) → (query t db).1 ≡ db)
      → Keeps R (scan_order query)
  unfolding scan_order
  scan-Keeps query reads =
      Keeps-try_bind order (call query) with_items (Keeps-read order query reads) items-Keeps
