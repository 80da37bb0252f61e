-- ===== src/Server/Cleanup.antt =====
-- backend/cmd/server/main.go, runStaleOrderCleanup, over backend/internal/db/orders.go: the job that cancels
-- checkouts that were never opened.
use stripe_payment_integrati.Server.{run_stale_order_cleanup, stale_after, call}
use stripe_payment_integrati.Db.Soundness.{Every}
use stripe_payment_integrati.Db.Orders.{
  set_entry, is_pending, is_stale_pending, stale_canceled, cancel_stale_pending_orders,
}
use stripe_payment_integrati.World.{World, quietly, call}
use stripe_payment_integrati.Db.Table.{update_rows}
use stripe_payment_integrati.Domain.{OrderStatus}
use stripe_payment_integrati.Db.{Order}
use stripe_payment_integrati.Prelude.{
  ℕ, ◌+◌, ◌<◌, ◌≡◌, refl, true, none, List, [], ◌∷◌, Bool-cases, inl, inr, arith, ◌↔◌,
}

-- Fifteen minutes have passed, and the checkout is still not opened.
pub record Stale (now : ℕ) (o : Order) : Type 0 where
  pub pending : o.status ≡ OrderStatus.pending
  pub unopened : o.session_id ≡ none
  pub old : o.created_at + 900000000000 < now

-- What a tick makes of a row.
pub data SweptRow (now : ℕ) (o : Order) : Order → Type 0 where
  canceled :
      Stale now o
      → SweptRow now o (record o {
        status = OrderStatus.canceled;
        metadata = set_entry "cancel_reason" "stale_checkout" o.metadata;
        updated_at = now;
      })
  kept : ¬ Stale now o → SweptRow now o o

-- The rows before and after, one by one.
abbrev pub SweptRows : ℕ → List Order → List Order → Type 0
SweptRows now [] [] = Unit
SweptRows now (o ∷ before) (p ∷ after) = SweptRow now o p × SweptRows now before after
SweptRows now _ _ = ⊥

is_pending_iff : (s : OrderStatus) → (is_pending s ≡ true) ↔ (s ≡ OrderStatus.pending)
is_pending_iff OrderStatus.pending = ((λ h. refl), (λ h. refl))
is_pending_iff OrderStatus.processing = ((λ h. cc), (λ h. cc))
is_pending_iff OrderStatus.paid = ((λ h. cc), (λ h. cc))
is_pending_iff OrderStatus.failed = ((λ h. cc), (λ h. cc))
is_pending_iff OrderStatus.expired = ((λ h. cc), (λ h. cc))
is_pending_iff OrderStatus.canceled = ((λ h. cc), (λ h. cc))
is_pending_iff OrderStatus.refunded = ((λ h. cc), (λ h. cc))

-- The WHERE clause selects what is stale.
is_stale_pending-Stale :
    (now : ℕ) (o : Order) → is_stale_pending stale_after now o ≡ true → Stale now o
is_stale_pending-Stale now o h = record {
  pending = (is_pending_iff o.status).0 (ground arith);
  unopened = ground arith;
  old = ground arith;
}

Stale-is_stale_pending :
    (now : ℕ) (o : Order) → Stale now o → is_stale_pending stale_after now o ≡ true
Stale-is_stale_pending now o s =
    let pending : is_pending o.status ≡ true = (is_pending_iff o.status).1 s.pending in
    let old = s.old in rw (pending, s.unopened) (ground arith)

swept :
    (now : ℕ) (rows : List Order)
    → SweptRows now rows (update_rows (is_stale_pending stale_after now) (stale_canceled now) rows)
unfolding update_rows
swept now [] = tt
swept now (o ∷ rows) = elim (Bool-cases (is_stale_pending stale_after now o)) [
  | inl h ↦ rw h (canceled (is_stale_pending-Stale now o h), swept now rows)
  | inr h ↦ rw h (kept (λ s. ground (arith, Stale-is_stale_pending now o s)), swept now rows)
]

row-fresh : (now : ℕ) (o p : Order) → SweptRow now o p → ¬ Stale now p
row-fresh now o _ (canceled was) = λ s. ground (arith, s.pending)
row-fresh now o _ (kept fresh) = fresh

rows-fresh :
    (now : ℕ) (before after : List Order)
    → SweptRows now before after
    → Every (λ o. ¬ Stale now o) after
rows-fresh now [] [] swept_rows = tt
rows-fresh now (o ∷ before) (p ∷ after) (first, rest) =
    (row-fresh now o p first, rows-fresh now before after rest)
rows-fresh now [] (p ∷ after) none_such = absurd none_such
rows-fresh now (o ∷ before) [] none_such = absurd none_such

module _ (w : World) where
  -- How a tick leaves the store.
  pub record Swept (after : World) : Type 0 where
    pub rows : SweptRows w.clock w.tables.orders after.tables.orders
    pub none_stale : Every (λ o. ¬ Stale w.clock o) after.tables.orders
    pub others_kept :
        after ≡ record (quietly w) { tables = record w.tables { orders = after.tables.orders } }

  -- An undisturbed tick of the job cancels every order that is pending, has no session and is older than
  -- fifteen minutes, notes the reason, and changes no other order and no other table; no such order is
  -- left.
  pub cleanup-Swept : Swept (run_stale_order_cleanup 1 (quietly w)).1
  unfolding run_stale_order_cleanup call cancel_stale_pending_orders
  cleanup-Swept = record {
    rows = swept w.clock w.tables.orders;
    none_stale = rows-fresh w.clock w.tables.orders _ (swept w.clock w.tables.orders);
    others_kept = refl;
  }
