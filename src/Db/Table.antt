-- ===== src/Db/Table.antt =====
-- SELECT, UPDATE and uniqueness on a table, and how they go together.
use stripe_payment_integrati.Prelude.{
  ℕ, suc, ◌<◌, String, ◌==◌, ◌≡◌, refl, Bool, true, false, ◌&&◌, Option, none, some, List, [], ◌∷◌,
  arith, if◌then◌else◌, Bool-cases, inl, inr, eq_iff, subst, ap, sym, eq_refl,
}
use mathlib.Core.Option

module _ {ℓ} {A : Type ℓ} where
  -- the first row that a WHERE clause selects
  unfoldable pub find_row : (A → Bool) → List A → Option A
  find_row p [] = none
  find_row p (a ∷ t) = if p a then some a else find_row p t

  unfoldable pub filter_rows : (A → Bool) → List A → List A
  filter_rows p [] = []
  filter_rows p (a ∷ t) = let rest = filter_rows p t in if p a then a ∷ rest else rest

  -- UPDATE … SET f WHERE p
  unfoldable pub update_rows : (A → Bool) → (A → A) → List A → List A
  update_rows p f [] = []
  update_rows p f (a ∷ t) = (if p a then f a else a) ∷ update_rows p f t

  -- RowsAffected
  unfoldable pub affected : (A → Bool) → List A → ℕ
  affected p [] = 0
  affected p (a ∷ t) = let rest = affected p t in if p a then suc rest else rest

  unfoldable pub any_row : (A → Bool) → List A → Bool
  any_row p [] = false
  any_row p (a ∷ t) = if p a then true else any_row p t

  -- An update that keeps what `p` looks at is seen by a later SELECT on the row that it finds.
  pub find_row-update_rows :
      (p q : A → Bool) (f : A → A) (t : List A)
      → ((a : A) → p (f a) ≡ p a)
      → find_row p (update_rows q f t) ≡ Option.map (λ a. if q a then f a else a) (find_row p t)
  unfolding find_row update_rows
  find_row-update_rows p q f [] keeps = refl
  find_row-update_rows p q f (a ∷ t) keeps =
      ground (arith, keeps a, find_row-update_rows p q f t keeps)

  pub affected-pos :
      (p q : A → Bool) (t : List A) (a : A) → find_row p t ≡ some a → q a ≡ true → 0 < affected q t
  unfolding find_row affected
  affected-pos p q [] a found h = cc
  affected-pos p q (b ∷ t) a found h = ground (arith, affected-pos p q t a)

  pub find_row_sound : (p : A → Bool) (t : List A) (a : A) → find_row p t ≡ some a → p a ≡ true
  unfolding find_row
  find_row_sound p [] a found = cc
  find_row_sound p (b ∷ t) a found = ground (arith, find_row_sound p t a)

  pub any_row-none : (p : A → Bool) (t : List A) → any_row p t ≡ false → find_row p t ≡ none
  unfolding any_row find_row
  any_row-none p [] h = refl
  any_row-none p (a ∷ t) h = ground (arith, any_row-none p t)

  pub affected-none : (p : A → Bool) (t : List A) → find_row p t ≡ none → affected p t ≡ 0
  unfolding affected find_row
  affected-none p [] h = refl
  affected-none p (a ∷ t) h = ground (arith, affected-none p t)

  pub update_rows-none :
      (p : A → Bool) (f : A → A) (t : List A) → affected p t ≡ 0 → update_rows p f t ≡ t
  unfolding update_rows affected
  update_rows-none p f [] h = refl
  update_rows-none p f (a ∷ t) h = ground (arith, update_rows-none p f t)

-- A table whose key column is UNIQUE.
module _ {A : Type 0} (key : A → String) where
  abbrev pub with_key : String → A → Bool
  with_key k a = key a == k

  abbrev pub Keyed : List A → Type 0
  Keyed [] = Unit
  Keyed (a ∷ t) = (find_row (with_key (key a)) t ≡ none) × Keyed t

  pub affected-fresh :
      (k : String) (q : A → Bool) (t : List A)
      → find_row (with_key k) t ≡ none
      → affected (λ b. with_key k b && q b) t ≡ 0
  unfolding find_row affected
  affected-fresh k q [] h = refl
  affected-fresh k q (a ∷ t) h = ground (arith, affected-fresh k q t)

  -- The row under a key is the only one: where it fails a test, no row under the key passes it.
  pub affected-zero :
      (k : String) (q : A → Bool) (t : List A) (a : A)
      → Keyed t
      → find_row (with_key k) t ≡ some a
      → q a ≡ false
      → affected (λ b. with_key k b && q b) t ≡ 0
  unfolding find_row affected
  affected-zero k q [] a keyed found h = cc
  affected-zero k q (b ∷ t) a (fresh, keyed) found h = elim (Bool-cases (key b == k)) [
    | inl e ↦
        let same : key b ≡ k = (eq_iff (key b) k).0 e in
        let later : find_row (with_key k) t ≡ none =
          subst (λ j. find_row (with_key j) t ≡ none) same fresh in
        ground (arith, affected-fresh k q t)
    | inr e ↦ ground (arith, affected-zero k q t a keyed)
  ]

  module _ (f : A → A) (keeps : (a : A) → key (f a) ≡ key a) where
    key-choice : (b : Bool) (a : A) → key (if b then f a else a) ≡ key a
    key-choice true a = keeps a
    key-choice false a = refl

    find_row-with_key :
        (k : String) (q : A → Bool) (t : List A)
        → find_row (with_key k) t ≡ none
        → find_row (with_key k) (update_rows q f t) ≡ none
    find_row-with_key k q t h =
        rw (find_row-update_rows (with_key k) q f t (λ a. ap (λ j. j == k) (keeps a))) (rw h)

    -- An update that keeps the key column keeps the table keyed.
    pub Keyed-update_rows : (q : A → Bool) (t : List A) → Keyed t → Keyed (update_rows q f t)
    unfolding update_rows
    Keyed-update_rows q [] keyed = tt
    Keyed-update_rows q (a ∷ t) (fresh, keyed) = (
      subst (λ j. find_row (with_key j) (update_rows q f t) ≡ none) (sym (key-choice (q a) a))
          (find_row-with_key (key a) q t fresh),
      Keyed-update_rows q t keyed,
    )

  -- A row that a SELECT finds is the one under its key.
  pub find_row-Keyed :
      (p : A → Bool) (t : List A) (a : A)
      → Keyed t
      → find_row p t ≡ some a
      → find_row (with_key (key a)) t ≡ some a
  unfolding find_row
  find_row-Keyed p [] a keyed found = cc
  find_row-Keyed p (b ∷ t) a (fresh, keyed) found = elim (Bool-cases (p b)) [
    | inl h ↦ let same : b ≡ a = ground arith in rw (same, eq_refl (key a))
    | inr h ↦
        let below : find_row p t ≡ some a = ground arith in
        let later : find_row (with_key (key a)) t ≡ some a = find_row-Keyed p t a keyed below in
        elim (Bool-cases (key b == key a)) [
          | inl e ↦
              let clash : find_row (with_key (key a)) t ≡ none =
                subst (λ j. find_row (with_key j) t ≡ none) ((eq_iff (key b) (key a)).0 e) fresh in
              absurd (ground arith)
          | inr e ↦ rw e later
        ]
  ]
