-- ===== src/Db/OrderRows.antt =====
-- backend/internal/db/orders.go: what an UPDATE of one order does to the row.
use stripe_payment_integrati.Db.Webhooks.{is_order}
use stripe_payment_integrati.Db.Table.{
  find_row, update_rows, affected, find_row-update_rows, affected-pos,
}
use stripe_payment_integrati.Db.{Order}
use stripe_payment_integrati.Prelude.{◌≡◌, Bool, true, some, List, arith, ltb, eq_refl}

module _ (p : Order → Bool) (f : Order → Order) (orders : List Order) (o : Order)
    (found : find_row p orders ≡ some o) where
  -- The row that a SELECT finds, after its update.
  pub found-updated :
      ((q : Order) → p (f q) ≡ p q) → find_row p (update_rows (is_order o.id) f orders) ≡ some (f o)
  found-updated keeps =
      rw (find_row-update_rows p (is_order o.id) f orders keeps) (rw found (rw (eq_refl o.id)))

  pub found-affected : ltb 0 (affected (is_order o.id) orders) ≡ true
  found-affected = ground (arith, affected-pos p (is_order o.id) orders o found (eq_refl o.id))
