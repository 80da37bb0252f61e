-- ===== src/Checkout/Canonical.antt =====
-- backend/internal/service/checkout_canonical.go: the body under which an idempotency key was used.
use stripe_payment_integrati.Prelude.{String, [], ◌∷◌, if◌then◌else◌}
use stripe_payment_integrati.Prelude.Text.{ltb_text}
use stripe_payment_integrati.Db.{Metadata}
use stripe_payment_integrati.Checkout.{CreateCheckoutInput, CanonicalBody, Host}

-- sort.Strings on the keys, each with its value
unfoldable pub insert_entry : String → String → Metadata → Metadata
insert_entry k v [] = (k, v) ∷ []
insert_entry k v ((j, w) ∷ m) =
    if ltb_text j k then (j, w) ∷ insert_entry k v m else (k, v) ∷ (j, w) ∷ m

unfoldable pub sort_entries : Metadata → Metadata
sort_entries [] = []
sort_entries ((k, v) ∷ m) = insert_entry k v (sort_entries m)

unfoldable pub canonical_body : CreateCheckoutInput → CanonicalBody
canonical_body input = record {
  ui_mode = input.ui_mode;
  items = input.items;
  customer_email = input.customer_email;
  metadata = sort_entries input.metadata;
}

unfoldable pub canonical_body_hash : Host → CreateCheckoutInput → String
canonical_body_hash host input = host.body_digest (canonical_body input)
