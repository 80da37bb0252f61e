-- ===== src/Db/Progress.antt =====
-- How the orders of the store change: along the edges of the life of an order, with the amounts, the
-- items and, once the money has arrived, the payment kept.
use mathlib.Core.Option
use stripe_payment_integrati.Prelude.{
  String, ◌==◌, ◌≡◌, refl, ap, subst, ◌∙◌, Bool, true, false, Option, none, some, if◌then◌else◌,
}
use stripe_payment_integrati.Domain.{OrderStatus}
use stripe_payment_integrati.Db.{Tables, Order}
use stripe_payment_integrati.Db.Table.{find_row, update_rows, find_row-update_rows}
use stripe_payment_integrati.Db.Webhooks.{is_order}
use stripe_payment_integrati.Domain.Lifecycle.{◌⟶*◌, stay, ⟶*_trans, IsSettled, ⟶*-IsSettled}
use stripe_payment_integrati.World.Keeps.{Preorder}

-- From one version of an order's row to a later one.
pub record RowMove (o o' : Order) : Type 0 where
  pub status_moves : o.status ⟶* o'.status
  pub same_total : o.total_amount_cents ≡ o'.total_amount_cents
  pub same_currency : o.currency ≡ o'.currency
  pub payment_kept :
      IsSettled o.status → (o.paid_at ≡ o'.paid_at) × (o.payment_intent_id ≡ o'.payment_intent_id)

pub RowMove-refl : (o : Order) → RowMove o o
RowMove-refl o = record {
  status_moves = stay;
  same_total = refl;
  same_currency = refl;
  payment_kept = λ h. (refl, refl);
}

RowMove-trans : {a b c : Order} → RowMove a b → RowMove b c → RowMove a c
RowMove-trans p q = record {
  status_moves = ⟶*_trans p.status_moves q.status_moves;
  same_total = p.same_total ∙ q.same_total;
  same_currency = p.same_currency ∙ q.same_currency;
  payment_kept = λ h.
      let first = p.payment_kept h in
      let second = q.payment_kept (⟶*-IsSettled p.status_moves h) in
      (first.0 ∙ second.0, first.1 ∙ second.1);
}

-- A row is never deleted; a new one starts as pending.
pub data Along : Option Order → Option Order → Type 0 where
  absent : Along none none
  born : {o : Order} → OrderStatus.pending ⟶* o.status → Along none (some o)
  moved : {o o' : Order} → RowMove o o' → Along (some o) (some o')

pub Along-refl : (o : Option Order) → Along o o
Along-refl none = absent
Along-refl (some o) = moved (RowMove-refl o)

Along-trans : {a b c : Option Order} → Along a b → Along b c → Along a c
Along-trans absent q = q
Along-trans (born p) (moved m) = born (⟶*_trans p m.status_moves)
Along-trans (moved m) (moved n) = moved (RowMove-trans m n)

pub record Progress (db db' : Tables) : Type 0 where
  pub at : (k : String) → Along (find_row (is_order k) db.orders) (find_row (is_order k) db'.orders)

pub Progress-preorder : Preorder Progress
Progress-preorder = record {
  refl_at = λ db. record { at = λ k. Along-refl (find_row (is_order k) db.orders) };
  trans = λ p q. record { at = λ k. Along-trans (p.at k) (q.at k) };
}

-- A statement that leaves the orders alone.
pub Progress-same : (db db' : Tables) → db.orders ≡ db'.orders → Progress db db'
Progress-same db db' e = record {
  at = λ k.
      subst (λ orders. Along (find_row (is_order k) db.orders) (find_row (is_order k) orders)) e
        (Along-refl (find_row (is_order k) db.orders));
}

module _ (q : Order → Bool) (f : Order → Order) (keeps_id : (o : Order) → (f o).id ≡ o.id)
    (moves : (o : Order) → q o ≡ true → RowMove o (f o)) where
  choice-moves : (o : Order) (b : Bool) → q o ≡ b → RowMove o (if b then f o else o)
  choice-moves o true h = moves o h
  choice-moves o false h = RowMove-refl o

  Along-map : (o : Option Order) → Along o (Option.map (λ a. if q a then f a else a) o)
  Along-map none = absent
  Along-map (some o) = moved (choice-moves o (q o) refl)

  -- An update that moves each row that it selects.
  pub Progress-update_rows :
      (db db' : Tables) → db'.orders ≡ update_rows q f db.orders → Progress db db'
  Progress-update_rows db db' e = record {
    at = λ k.
        rw (e, find_row-update_rows (is_order k) q f db.orders (λ o. ap (λ i. i == k) (keeps_id o)))
          (Along-map (find_row (is_order k) db.orders));
  }
