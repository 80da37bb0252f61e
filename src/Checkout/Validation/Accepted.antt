-- ===== src/Checkout/Validation/Accepted.antt =====
-- backend/internal/service/checkout_validation.go: what validateCheckoutInput accepts, said without
-- the order of its tests.
use stripe_payment_integrati.Checkout.Validation.Basket.{
  guard_iff, ItemsFine, ltb_iff, Distinct, items_iff, all-Unseen,
}
use stripe_payment_integrati.Domain.{valid_ui_mode}
use stripe_payment_integrati.Prelude.Text.{len}
use stripe_payment_integrati.Checkout.Validation.{
  ok, validate_entries, validate_metadata, validate_checkout_input, max_metadata_key_len,
  max_customer_email_len, max_checkout_items,
}
use stripe_payment_integrati.Checkout.{validation_error, Host, CreateCheckoutInput}
use stripe_payment_integrati.Db.{Metadata}
use stripe_payment_integrati.Prelude.{
  String, ◌==◌, ◌≡◌, ◌↔◌, refl, Bool, true, false, ◌&&◌, not, [], ◌∷◌, ltb, eqb, ◌≤◌, length, inl,
  inr, arith, starts_with, Bool-cases,
}

abbrev pub EntryFine : String × String → Type 0
EntryFine (k, v) = (starts_with k "_" ≡ false) × (len k ≤ 40) × (len v ≤ 500)

abbrev pub EntriesFine : Metadata → Type 0
EntriesFine [] = Unit
EntriesFine (e ∷ m) = EntryFine e × EntriesFine m

abbrev iff_refl : (P : Type 0) → P ↔ P
iff_refl P = ((λ p. p), λ p. p)

entries_iff : (m : Metadata) → (validate_entries m ≡ ok tt) ↔ EntriesFine m
unfolding validate_entries
entries_iff [] = ((λ h. tt), λ h. refl)
entries_iff ((k, v) ∷ m) =
    let all =
      guard_iff _ (validation_error "metadata keys cannot start with underscore") _
        (iff_refl (starts_with k "_" ≡ false))
        (guard_iff _ (validation_error "metadata key too long") _
          (ltb_iff max_metadata_key_len (len k))
          (guard_iff _ (validation_error "metadata value exceeds 500 chars") _ (ltb_iff 500 (len v))
            (entries_iff m))) in
    (
      (λ h. let (a, (b, (c, d))) = all.0 h in ((a, b, c), d)),
      λ ((a, b, c), d). all.1 (a, (b, (c, d))),
    )

metadata_iff : (m : Metadata) → (validate_metadata m ≡ ok tt) ↔ ((length m ≤ 50) × EntriesFine m)
unfolding validate_metadata
metadata_iff m =
    guard_iff _ (validation_error "metadata exceeds 50 keys") _ (ltb_iff 50 (length m))
      (entries_iff m)

pub data EmailFine (host : Host) : String → Type 0 where
  no_email : {s : String} → (s == "") ≡ true → EmailFine host s
  an_address : {s : String} → len s ≤ 254 → host.parses_address s ≡ true → EmailFine host s

pub record Acceptable (host : Host) (input : CreateCheckoutInput) : Type 0 where
  pub mode : valid_ui_mode input.ui_mode ≡ true
  pub item_count : (1 ≤ length input.items) × (length input.items ≤ 20)
  pub email : EmailFine host input.customer_email
  pub each_item : ItemsFine input.items
  pub distinct : Distinct input.items
  pub entry_count : length input.metadata ≤ 50
  pub entries : EntriesFine input.metadata

not_iff : (b : Bool) → (not b ≡ false) ↔ (b ≡ true)
not_iff true = ((λ h. refl), λ h. refl)
not_iff false = ((λ h. absurd (ground arith)), λ h. absurd (ground arith))

-- the two tests on the e-mail address
EmailTests : Host → String → Type 0
EmailTests host s =
    ((not (s == "") && ltb max_customer_email_len (len s)) ≡ false)
    × ((not (s == "") && not (host.parses_address s)) ≡ false)

email_fine : (host : Host) (s : String) → EmailTests host s → EmailFine host s
unfolding EmailTests
email_fine host s (a, b) = elim (Bool-cases (s == "")) [
  | inl empty ↦ no_email empty
  | inr named ↦ an_address (ground arith) (ground arith)
]

email_tests : (host : Host) (s : String) → EmailFine host s → EmailTests host s
unfolding EmailTests
email_tests host s (no_email empty) = (ground arith, ground arith)
email_tests host s (an_address short parses) = (ground arith, ground arith)

-- The input is accepted exactly where the UI mode is hosted or embedded, there are between 1 and 20
-- items, each with a product that is not blank and no other item has and with a quantity between 1 and
-- 99, the e-mail address is left out or parses within 254 bytes, and there are at most 50 entries of
-- metadata, whose keys do not begin with an underscore and have at most 40 bytes, and whose values
-- have at most 500.
pub validate_checkout_input_iff :
    (host : Host) (input : CreateCheckoutInput)
    → (validate_checkout_input host input ≡ ok tt) ↔ Acceptable host input
unfolding validate_checkout_input EmailTests
validate_checkout_input_iff host input =
    let few : (eqb (length input.items) 0 ≡ false) ↔ (1 ≤ length input.items) =
      ((λ h. ground arith), λ h. ground arith) in
    let all =
      guard_iff _ (validation_error "uiMode must be hosted or embedded") _
        (not_iff (valid_ui_mode input.ui_mode))
        (guard_iff _ (validation_error "items required") _ few (
          guard_iff _ (validation_error "too many line items") _
            (ltb_iff max_checkout_items (length input.items))
            (guard_iff _ (validation_error "customerEmail too long") _ (iff_refl _) (
              guard_iff _ (validation_error "customerEmail invalid") _ (iff_refl _) (
                items_iff input.items [] (validate_metadata input.metadata)
                  (metadata_iff input.metadata)))))) in
    (
      (λ h.
          let (
            mode,
            (some_items, (few_items, (short, (parses, (((fine, distinct), _), (count, entries)))))),
          ) =
            all.0 h in
          record {
            mode = mode;
            item_count = (some_items, few_items);
            email = email_fine host input.customer_email (short, parses);
            each_item = fine;
            distinct = distinct;
            entry_count = count;
            entries = entries;
          }),
      λ a.
          let (short, parses) = email_tests host input.customer_email a.email in
          all.1 (
            a.mode,
            (
              a.item_count.0,
              (
                a.item_count.1,
                (
                  short,
                  (
                    parses,
                    (
                      ((a.each_item, a.distinct), all-Unseen input.items),
                      (a.entry_count, a.entries),
                    ),
                  ),
                ),
              ),
            ),
          ),
    )
