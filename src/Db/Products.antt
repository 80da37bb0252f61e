-- ===== src/Db/Products.antt =====
-- backend/internal/db/products.go: the catalog.
use stripe_payment_integrati.Prelude.{
  String, ◌==◌, Bool, false, ◌&&◌, ◌||◌, Option, List, [], ◌∷◌, ◌++◌, if◌then◌else◌,
}
use stripe_payment_integrati.Prelude.Int.{pos, ltb_ℤ}
use stripe_payment_integrati.Db.{Product, ok, err, check_violation, Statement}
use stripe_payment_integrati.Db.Table.{find_row, filter_rows, any_row, with_key}

abbrev pub is_active_product : String → Product → Bool
is_active_product k p = p.id == k && p.active

unfoldable pub list_active_products : Statement (List Product)
list_active_products now db = (ok (filter_rows (λ p. p.active) db.products), db)

unfoldable pub get_product : String → Statement (Option Product)
get_product k now db = (ok (find_row (is_active_product k) db.products), db)

abbrev pub is_any_of : List String → String → Bool
is_any_of [] s = false
is_any_of (k ∷ ks) s = k == s || is_any_of ks s

-- The rows, which the code puts into a map by `id`.
unfoldable pub get_products_by_ids : List String → Statement (List Product)
get_products_by_ids ids now db =
    (ok (filter_rows (λ p. is_any_of ids p.id && p.active) db.products), db)

unfoldable pub upsert_product : Product → Statement (Unit {0})
upsert_product p now db =
    if ltb_ℤ (pos 0) p.unit_amount_cents
    then if any_row (with_key (λ q. q.id) p.id) db.products
      then (ok tt, db)
      else (ok tt, record db { products = db.products ++ p ∷ [] })
    else (err check_violation, db)
