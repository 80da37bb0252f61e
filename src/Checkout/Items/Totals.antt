-- ===== src/Checkout/Items/Totals.antt =====
-- backend/internal/service/checkout.go, buildCheckoutLineItems: the order's total and what Stripe
-- charges for the lines.
use stripe_payment_integrati.Db.Products.{get_products_by_ids}
use stripe_payment_integrati.Db.Table.{find_row, with_key}
use stripe_payment_integrati.World.{pure, new_id, call}
use stripe_payment_integrati.World.Yields.{OnOk, Yields, Yields-then, Yields-try_bind}
use stripe_payment_integrati.Db.{Product, err}
use stripe_payment_integrati.Db.NewOrders.{CreateOrderItemParams}
use stripe_payment_integrati.Checkout.Items.{
  LineItems, add_line, stripe_line, db_line, priced, add_items, with_currency, no_items,
  build_checkout_line_items, ok,
}
use stripe_payment_integrati.Prelude.{
  map, String, ◌==◌, ◌≡◌, refl, Bool, true, false, List, [], ◌∷◌, ◌++◌, Option, none, some, sym,
  subst, eq_iff, if◌then◌else◌,
}
use stripe_payment_integrati.Checkout.{StripeLine, CheckoutItemInput, validation_error}
use stripe_payment_integrati.Prelude.Int.{ℤ, pos, int32, ◌+ℤ◌, ◌*ℤ◌}
use stripe_payment_integrati.Prelude.Wrap.{wrap_both, add_assoc, add_comm}

-- what Stripe charges for the lines, with no bound on the size
abbrev pub charged : List StripeLine → ℤ
charged [] = pos 0
charged (l ∷ lines) = (l.unit_amount *ℤ l.quantity) +ℤ charged lines

abbrev pub InCurrency : String → List StripeLine → Type 0
InCurrency c [] = Unit
InCurrency c (l ∷ lines) = (l.currency ≡ c) × InCurrency c lines

-- the rows to be stored and the lines sent, one by one
abbrev pub SameLines : List StripeLine → List CreateOrderItemParams → Type 0
SameLines [] [] = Unit
SameLines (l ∷ lines) (d ∷ rows) =
    ((d.product_name ≡ l.name)
      × (d.unit_amount_cents ≡ l.unit_amount)
      × (d.quantity ≡ l.quantity)
      × (d.line_total_cents ≡ int32 (l.unit_amount *ℤ l.quantity)))
    × SameLines lines rows
SameLines _ _ = ⊥

pub record Tallied (r : LineItems) : Type 0 where
  pub total_wraps : r.total ≡ int32 (charged r.stripe)
  pub one_currency : InCurrency r.currency r.stripe
  pub same_lines : SameLines r.stripe r.db

charged-append :
    (lines : List StripeLine) (l : StripeLine)
    → charged (lines ++ l ∷ []) ≡ charged lines +ℤ (l.unit_amount *ℤ l.quantity)
charged-append [] l = add_comm (l.unit_amount *ℤ l.quantity) (pos 0)
charged-append (k ∷ lines) l =
    rw (charged-append lines l)
      (sym (add_assoc (k.unit_amount *ℤ k.quantity) (charged lines) (l.unit_amount *ℤ l.quantity)))

currency-append :
    (c : String) (lines : List StripeLine) (l : StripeLine)
    → InCurrency c lines
    → l.currency ≡ c
    → InCurrency c (lines ++ l ∷ [])
currency-append c [] l h same = (same, tt)
currency-append c (k ∷ lines) l (a, b) same = (a, currency-append c lines l b same)

lines-append :
    (lines : List StripeLine) (rows : List CreateOrderItemParams) (l : StripeLine)
    (d : CreateOrderItemParams)
    → SameLines lines rows
    → SameLines (l ∷ []) (d ∷ [])
    → SameLines (lines ++ l ∷ []) (rows ++ d ∷ [])
lines-append [] [] l d h new = new
lines-append (k ∷ lines) (e ∷ rows) l d (a, b) new = (a, lines-append lines rows l d b new)
lines-append [] (e ∷ rows) l d h new = absurd h
lines-append (k ∷ lines) [] l d h new = absurd h

add_line-Tallied :
    (r : LineItems) (p : Product) (i : CheckoutItemInput) (id : String)
    → Tallied r
    → InCurrency p.currency r.stripe
    → Tallied (add_line r p.currency p i id)
add_line-Tallied r p i id t same = record {
  total_wraps =
      rw (t.total_wraps, charged-append r.stripe (stripe_line p i))
        (wrap_both (charged r.stripe) (p.unit_amount_cents *ℤ i.quantity));
  one_currency = currency-append p.currency r.stripe (stripe_line p i) same refl;
  same_lines =
      lines-append r.stripe r.db (stripe_line p i) (db_line p i id) t.same_lines
        ((refl, refl, refl, refl), tt);
}

-- What the currency test of a later item lets through.
abbrev Fits : LineItems → Product × String → Type 0
Fits r (p, c) = (c ≡ p.currency) × InCurrency p.currency r.stripe

currency-Fits :
    (r : LineItems) (p : Product) (same : Bool)
    → (p.currency == r.currency) ≡ same
    → InCurrency r.currency r.stripe
    → OnOk (Fits r) (
        with_currency p
          (if same then ok r.currency else err (validation_error "mixed currency not allowed")))
currency-Fits r p true e h = (
  sym ((eq_iff p.currency r.currency).0 e),
  subst (λ c. InCurrency c r.stripe) (sym ((eq_iff p.currency r.currency).0 e)) h,
)
currency-Fits r p false e h = tt

priced-Fits :
    (r : LineItems) (i : CheckoutItemInput) (found : Option Product)
    → InCurrency r.currency r.stripe
    → OnOk (Fits r) (priced false r i found)
priced-Fits r i none h = tt
priced-Fits r i (some p) h = currency-Fits r p (p.currency == r.currency) refl h

first-Fits :
    (i : CheckoutItemInput) (found : Option Product)
    → OnOk (Fits no_items) (priced true no_items i found)
first-Fits i none = tt
first-Fits i (some p) = (refl, tt)

no_items-Tallied : Tallied no_items
unfolding int32
no_items-Tallied = record { total_wraps = refl; one_currency = tt; same_lines = tt }

module _ (products : List Product) where
  add_items-Tallied :
      (r : LineItems) (items : List CheckoutItemInput)
      → Tallied r
      → Yields (OnOk Tallied) (add_items products false r items)
  unfolding add_items
  add_items-Tallied r [] t = record { at = λ w. t }
  add_items-Tallied r (i ∷ items) t =
      Yields-then (Fits r) Tallied
        (pure (priced false r i (find_row (with_key (λ p. p.id) i.product_id) products))) _
        (λ (p, c) (same, fits). record {
          at = λ w. rw same (
              (add_items-Tallied (add_line r p.currency p i (new_id w).0) items
                  (add_line-Tallied r p i (new_id w).0 t fits)).at
                (new_id w).1);
        })
        (record {
          at = λ w.
              priced-Fits r i (find_row (with_key (λ p. p.id) i.product_id) products)
                t.one_currency;
        })

  all_items-Tallied :
      (items : List CheckoutItemInput)
      → Yields (OnOk Tallied) (add_items products true no_items items)
  unfolding add_items
  all_items-Tallied [] = record { at = λ w. no_items-Tallied }
  all_items-Tallied (i ∷ items) =
      Yields-then (Fits no_items) Tallied
        (pure (priced true no_items i (find_row (with_key (λ p. p.id) i.product_id) products))) _
        (λ (p, c) (same, fits). record {
          at = λ w. rw same (
              (add_items-Tallied (add_line no_items p.currency p i (new_id w).0) items
                  (add_line-Tallied no_items p i (new_id w).0 no_items-Tallied fits)).at
                (new_id w).1);
        })
        (record { at = λ w. first-Fits i (find_row (with_key (λ p. p.id) i.product_id) products) })

-- Under any interference and any failures, the lines that are built have one currency, which is the
-- order's; the rows to be stored agree with the lines sent to Stripe one by one; and the order's total
-- is the sum that Stripe charges, wrapped around to an int32.
pub build_checkout_line_items-Tallied :
    (items : List CheckoutItemInput) → Yields (OnOk Tallied) (build_checkout_line_items items)
unfolding build_checkout_line_items
build_checkout_line_items-Tallied items =
    Yields-try_bind (call (get_products_by_ids (map (λ i. i.product_id) items))) _
      (λ products. all_items-Tallied products items)

-- Three pieces at 20,000,000.00: Stripe charges 6,000,000,000 cents, the total is another number.
overflow_passes : int32 (pos 2000000000 *ℤ pos 3) ≡ pos 1705032704
unfolding int32 ◌*ℤ◌
overflow_passes = refl
