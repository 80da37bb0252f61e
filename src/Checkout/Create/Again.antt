-- ===== src/Checkout/Create/Again.antt =====
-- backend/internal/service/order.go: a checkout that is opened, then read with its token, and asked for
-- again under its key.
use stripe_payment_integrati.Checkout.Replay.Exact.{resolve_idempotency-replays}
use stripe_payment_integrati.Checkout.Validation.Accepted.{validate_checkout_input_iff}
use stripe_payment_integrati.Checkout.Access.Reading.{get_order-reads}
use stripe_payment_integrati.Checkout.Access.{valid_order_id, get_order}
use stripe_payment_integrati.Domain.{valid_ui_mode, OrderStatus, UiMode, is_hosted, is_embedded}
use stripe_payment_integrati.Checkout.Canonical.{canonical_body_hash}
use stripe_payment_integrati.Checkout.Replay.{extract_request_hash, replay_checkout}
use stripe_payment_integrati.Checkout.Session.Opening.{open_session-opens}
use stripe_payment_integrati.Checkout.Session.Storing.{stored, Storable, Storable-stored}
use stripe_payment_integrati.Db.Webhooks.{is_order}
use stripe_payment_integrati.Checkout.Create.{create_checkout_session, ok, or_new}
use stripe_payment_integrati.Checkout.Session.{
  pending_order, Draft, build_stripe_session_params, build_checkout_result,
}
use stripe_payment_integrati.Db.Table.{find_row, any_row, update_rows, filter_rows, with_key}
use stripe_payment_integrati.Stripe.{CheckoutSession}
use stripe_payment_integrati.Checkout.Create.Fresh.{
  Fresh, draft, pending_row, placed, reaches-open_session,
}
use stripe_payment_integrati.Checkout.Items.{LineItems}
use stripe_payment_integrati.World.{World, with_tables, quietly}
use stripe_payment_integrati.Db.{Metadata, OrderItem, Order}
use stripe_payment_integrati.Checkout.{Host, CreateCheckoutInput, CheckoutResult}
use stripe_payment_integrati.Db.Orders.{
  null_if_empty, get_entry, set_entry, with_session, taken_by_other, merge_request_body_hash,
  has_idempotency_key, update_order_access_token_hash,
}
use stripe_payment_integrati.Prelude.{
  ℕ, String, ◌==◌, ◌≡◌, refl, Bool, true, false, some, List, [], ◌∷◌, arith, eq_refl, inl, inr,
  Bool-cases, or_empty, ◌&&◌, not, sym, eq_iff, if◌then◌else◌, suc,
}

or_empty-null_if_empty : (s : String) → or_empty (null_if_empty s) ≡ s
unfolding null_if_empty
or_empty-null_if_empty s = elim (Bool-cases (s == "")) [
  | inl empty ↦ rw empty (sym ((eq_iff s "").0 empty))
  | inr named ↦ rw named refl
]

null_if_empty-some : (s : String) → (s == "") ≡ false → null_if_empty s ≡ some s
unfolding null_if_empty
null_if_empty-some s named = rw named refl

get_entry-set_entry : (k v : String) (m : Metadata) → get_entry k (set_entry k v m) ≡ some v
unfolding get_entry set_entry
get_entry-set_entry k v [] = rw (eq_refl k) refl
get_entry-set_entry k v ((j, x) ∷ m) = elim (Bool-cases (j == k)) [
  | inl own ↦ rw own (rw (eq_refl k) refl)
  | inr other ↦ rw other (rw other (get_entry-set_entry k v m))
]

urls_agree :
    (m : UiMode) (url : String)
    → (if is_hosted m then or_empty (null_if_empty url) else "") ≡ (if is_hosted m then url else "")
urls_agree m url = rw (or_empty-null_if_empty url) refl

secrets_agree :
    (m : UiMode) (secret : String)
    → valid_ui_mode m ≡ true
    → (if is_embedded m then or_empty (null_if_empty secret) else "")
      ≡ (if is_hosted m then "" else secret)
secrets_agree UiMode.hosted secret valid = refl
secrets_agree UiMode.embedded secret valid = or_empty-null_if_empty secret
secrets_agree (UiMode.other t) secret valid = absurd (ground arith)

module _ (host : Host) (frontend : String) (key : String) (input : CreateCheckoutInput) (w : World)
    (lines : LineItems) (n : ℕ) (token : String) (canceled : ℕ → Bool) (items : List OrderItem)
    (f : Fresh host frontend key input w lines n token items) (s : CheckoutSession) where
  abbrev d : Draft
  d = draft host frontend key input w lines n token

  abbrev row : Order
  row = pending_row host frontend key input w lines n token

  abbrev pub open_row : Order
  open_row = with_session s.id s.url s.client_secret w.clock row

  abbrev pub answer : CheckoutResult
  answer = build_checkout_result d.id d.number input.ui_mode s token

  abbrev pub opened : World
  opened =
      with_tables (placed host frontend key input w lines n token items)
        (stored d.id s w.clock (placed host frontend key input w lines n token items).tables)

  -- Stripe opens the session `s`, which no order has yet.
  pub record Opens : Type 0 where
    pub created :
        host.create_session (build_stripe_session_params d.id d.number input lines d.urls) d.id
        ≡ ok s
    pub new_session : any_row (taken_by_other d.id s.id) w.tables.orders ≡ false

  module _ (o : Opens) where
    row_Storable : Storable d.id s.id row (row ∷ w.tables.orders)
    unfolding find_row any_row pending_order
    row_Storable = record { row = rw (eq_refl (w.ids n)) refl; free = o.new_session }

    -- An undisturbed first request answers with the new order and the session, and leaves the order stored,
    -- pending and with that session.
    opens :
        create_checkout_session host frontend canceled key input (quietly w) ≡ (ok answer, opened)
    opens = rw (reaches-open_session host frontend key input w lines n token canceled items f) (
        open_session-opens host canceled d (placed host frontend key input w lines n token items)
          row s o.created row_Storable)

    found_open : find_row (is_order d.id) opened.tables.orders ≡ some open_row
    found_open =
        (Storable-stored d.id s w.clock
          (placed host frontend key input w lines n token items).tables row row_Storable).row

    -- A first request that nothing disturbs is answered with the new order and its session; the order is
    -- stored as pending with that session, and can be read at once with the token of the answer.
    pub create-get_order :
        valid_order_id host d.id ≡ true
        → (token == "") ≡ false
        → (host.digest token == "") ≡ false
        → (create_checkout_session host frontend canceled key input (quietly w)
            ≡ (ok answer, opened))
          × (open_row.status ≡ OrderStatus.pending)
          × (get_order host answer.order_id answer.access_token opened
              ≡ (ok (some (open_row, filter_rows (with_key (λ i. i.order_id) d.id) items)), opened))
    unfolding pending_order build_checkout_result
    create-get_order valid named hashed = (
      opens,
      refl,
      get_order-reads host d.id token opened open_row valid found_open named hashed
          (null_if_empty-some (host.digest token) hashed),
    )

    hash_kept : extract_request_hash open_row.metadata ≡ canonical_body_hash host input
    unfolding extract_request_hash pending_order merge_request_body_hash
    hash_kept =
        rw
          (get_entry-set_entry "_request_body_hash" (canonical_body_hash host input) input.metadata)
          refl

    not_different :
        (not (extract_request_hash open_row.metadata == "")
          && not (extract_request_hash open_row.metadata == canonical_body_hash host input))
        ≡ false
    not_different = rw (hash_kept, eq_refl (canonical_body_hash host input)) (ground arith)

    found_key :
        (key == "") ≡ false
        → find_row (has_idempotency_key key) opened.tables.orders ≡ some open_row
    unfolding find_row update_rows pending_order
    found_key named = rw (eq_refl (w.ids n), null_if_empty-some key named) (rw (eq_refl key) refl)

    same_answer :
        (next : String)
        → valid_ui_mode input.ui_mode ≡ true
        → replay_checkout open_row next ≡ record answer { access_token = next }
    unfolding replay_checkout build_checkout_result pending_order
    same_answer next valid =
        rw (urls_agree input.ui_mode s.url, secrets_agree input.ui_mode s.client_secret valid) refl

    -- The same request again under its key, undisturbed and while the order is pending: the answer is the
    -- first one with a new token. No order is added, and the row gets the hash of the new token.
    pub create-create :
        (next : String)
        → (key == "") ≡ false
        → (s.id == "") ≡ false
        → w.entropy (suc (suc n)) ≡ some next
        → create_checkout_session host frontend canceled key input opened ≡ (
          ok (record answer { access_token = next }),
          record opened {
            tables =
                (update_order_access_token_hash d.id (host.digest next) w.clock opened.tables).1;
            drawn = suc (suc (suc n));
          },
        )
    unfolding create_checkout_session or_new pending_order
    create-create next named session drawn =
        let mode : valid_ui_mode input.ui_mode ≡ true =
          ((validate_checkout_input_iff host input).0 f.valid).mode in
        rw
          (
            f.valid,
            f.key_fits,
            resolve_idempotency-replays host key (canonical_body_hash host input) next opened
                open_row named (found_key named) found_open refl not_different session drawn,
            same_answer next mode,
          )
          refl
