-- ===== src/Checkout/Validation/Basket.antt =====
-- backend/internal/service/checkout_validation.go, the loop over the items: what it accepts.
use stripe_payment_integrati.Prelude.Text.{trim_space}
use stripe_payment_integrati.Checkout.Validation.{
  validate_items, seen, ok, max_item_quantity, reject_if,
}
use stripe_payment_integrati.Prelude.Int.{pos, ltb_ℤ, ℤ, negsuc}
use stripe_payment_integrati.Checkout.{CheckoutItemInput, validation_error}
use stripe_payment_integrati.Db.{Result, Error}
use stripe_payment_integrati.Prelude.{
  ℕ, String, ◌==◌, ◌≡◌, ◌↔◌, refl, Bool, true, false, ◌||◌, List, [], ◌∷◌, ltb, ◌≤◌, inl, inr,
  arith, Bool-cases,
}

-- A guard that stands before a test adds its condition to what the test accepts.
pub guard_iff :
    {P Q : Type 0} (b : Bool) (e : Error) (rest : Result (Unit {0}))
    → (b ≡ false) ↔ P
    → (rest ≡ ok tt) ↔ Q
    → (reject_if b e rest ≡ ok tt) ↔ (P × Q)
guard_iff b e rest p q = elim (Bool-cases b) [
  | inl h ↦ rw h (
    (λ bad. absurd (ground arith)),
    λ (x, y). let impossible : b ≡ false = p.1 x in absurd (ground arith),
  )
  | inr h ↦ rw h ((λ good. (p.0 h, q.0 good)), λ (x, y). q.1 y)
]

pub ltb_iff : (a b : ℕ) → (ltb a b ≡ false) ↔ (b ≤ a)
ltb_iff a b = ((λ h. ground arith), λ h. ground arith)

or_iff : (a b : Bool) → ((a || b) ≡ false) ↔ ((a ≡ false) × (b ≡ false))
or_iff true b = ((λ bad. absurd (ground arith)), λ both. absurd (ground arith))
or_iff false b = ((λ h. (refl, h)), λ both. both.1)

-- Within bounds, as a number.
abbrev pub Between : ℕ → ℕ → ℤ → Type 0
Between low high q = (n : ℕ) × (q ≡ pos n) × (low ≤ n) × (n ≤ high)

Between-iff : (q : ℤ) → ((ltb_ℤ q (pos 1) || ltb_ℤ max_item_quantity q) ≡ false) ↔ Between 1 99 q
Between-iff (pos n) =
    ((λ h. (n, refl, ground arith, ground arith)), λ (k, same, low, high). ground arith)
Between-iff (negsuc n) = ((λ h. ground arith), λ (k, same, low, high). ground arith)

-- A product that no later item has.
abbrev pub Away : String → List CheckoutItemInput → Type 0
Away k [] = Unit
Away k (i ∷ items) = ((k == i.product_id) ≡ false) × Away k items

abbrev pub Distinct : List CheckoutItemInput → Type 0
Distinct [] = Unit
Distinct (i ∷ items) = Away i.product_id items × Distinct items

abbrev pub ItemFine : CheckoutItemInput → Type 0
ItemFine i = ((trim_space i.product_id == "") ≡ false) × Between 1 99 i.quantity

abbrev pub ItemsFine : List CheckoutItemInput → Type 0
ItemsFine [] = Unit
ItemsFine (i ∷ items) = ItemFine i × ItemsFine items

-- None of the items has one of the products.
abbrev pub Unseen : List String → List CheckoutItemInput → Type 0
Unseen products [] = Unit
Unseen products (i ∷ items) = (seen i.product_id products ≡ false) × Unseen products items

Unseen-iff :
    (k : String) (products : List String) (items : List CheckoutItemInput)
    → Unseen (k ∷ products) items ↔ (Away k items × Unseen products items)
Unseen-iff k products [] = ((λ u. (tt, tt)), λ u. tt)
Unseen-iff k products (i ∷ items) =
    let head = or_iff (k == i.product_id) (seen i.product_id products) in
    let tail = Unseen-iff k products items in
    (
      (λ (h, t). let (a, b) = head.0 h in let (c, d) = tail.0 t in ((a, c), (b, d))),
      λ ((a, c), (b, d)). (head.1 (a, b), tail.1 (c, d)),
    )

pub all-Unseen : (items : List CheckoutItemInput) → Unseen [] items
all-Unseen [] = tt
all-Unseen (i ∷ items) = (refl, all-Unseen items)

pub items_iff :
    {Q : Type 0} (items : List CheckoutItemInput) (products : List String)
    (rest : Result (Unit {0}))
    → (rest ≡ ok tt) ↔ Q
    → (validate_items items products rest ≡ ok tt)
      ↔ (((ItemsFine items × Distinct items) × Unseen products items) × Q)
unfolding validate_items
items_iff [] products rest q = ((λ h. (((tt, tt), tt), q.0 h)), λ (x, y). q.1 y)
items_iff (i ∷ items) products rest q =
    let later = items_iff items (i.product_id ∷ products) rest q in
    let apart = Unseen-iff i.product_id products items in
    let fresh : (seen i.product_id products ≡ false) ↔ (seen i.product_id products ≡ false) =
      ((λ h. h), λ h. h) in
    let named : ((trim_space i.product_id == "") ≡ false)
        ↔ ((trim_space i.product_id == "") ≡ false) =
      ((λ h. h), λ h. h) in
    let all =
      guard_iff (trim_space i.product_id == "") (validation_error "productId required") _ named (
        guard_iff _ (validation_error "quantity must be between 1 and 99") _
          (Between-iff i.quantity)
          (guard_iff _ (validation_error "duplicate productId in items") _ fresh later)) in
    (
      (λ h.
          let (a, (b, (c, (((fine, distinct), unseen), z)))) = all.0 h in
          let (away, others) = apart.0 unseen in
          (((((a, b), fine), (away, distinct)), (c, others)), z)),
      λ (((((a, b), fine), (away, distinct)), (c, others)), z).
          all.1 (a, (b, (c, (((fine, distinct), apart.1 (away, others)), z)))),
    )
