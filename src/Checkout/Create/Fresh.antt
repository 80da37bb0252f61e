-- ===== src/Checkout/Create/Fresh.antt =====
-- backend/internal/service/order.go, CreateCheckoutSession: a first request, up to its order and session.
use stripe_payment_integrati.World.Scan.{scan_order, with_items}
use stripe_payment_integrati.Db.Orders.{list_order_items}
use stripe_payment_integrati.Checkout.Access.{generate_order_access_token, token_of}
use stripe_payment_integrati.Db.Table.{find_row}
use stripe_payment_integrati.Db.Orders.{get_order_by_idempotency_key, has_idempotency_key}
use stripe_payment_integrati.Checkout.Canonical.{canonical_body_hash}
use stripe_payment_integrati.Checkout.Create.{
  create_checkout_session, ok, or_new, for_order, new_checkout, after_order_insert,
  insert_pending_order, open_session,
}
use stripe_payment_integrati.World.{call, new_id, World, quietly, draw_token}
use stripe_payment_integrati.Checkout.Session.{
  build_checkout_urls, Draft, generate_order_number, pending_order,
}
use stripe_payment_integrati.Checkout.Validation.{validate_idempotency_key, validate_checkout_input}
use stripe_payment_integrati.Checkout.Items.{build_checkout_line_items, LineItems}
use stripe_payment_integrati.Checkout.Replay.{resolve_idempotency}
use stripe_payment_integrati.Db.{Order, OrderItem}
use stripe_payment_integrati.Db.NewOrders.{
  CreateOrderParams, new_order, create_order_with_items, commit_order, insert_order, insert_items,
}
use stripe_payment_integrati.Checkout.{Host, CreateCheckoutInput}
use stripe_payment_integrati.Prelude.{
  ℕ, suc, String, ◌==◌, ◌≡◌, refl, Bool, true, false, some, none, List, ◌∷◌, ◌⊎◌, inl, inr, map,
}

module _ (host : Host) (frontend : String) (key : String) (input : CreateCheckoutInput) (w : World)
    (lines : LineItems) (n : ℕ) (token : String) where
  abbrev pub draft : Draft
  draft = record {
    id = w.ids n;
    number = generate_order_number host w.clock (w.ids n);
    body_hash = canonical_body_hash host input;
    token = token;
    token_hash = host.digest token;
    key = key;
    input = input;
    lines = lines;
    urls = build_checkout_urls frontend input.ui_mode;
  }

  abbrev pub draft_params : CreateOrderParams
  draft_params =
      pending_order draft.id draft.number draft.body_hash draft.token_hash key input lines
        draft.urls

  abbrev pub pending_row : Order
  pending_row = new_order draft_params w.clock

  -- A first request that passes: its input is valid, no order has its key, its products have a price, a
  -- token can be drawn, and the constraints of the tables admit the new rows.
  pub record Fresh (items : List OrderItem) : Type 0 where
    pub valid : validate_checkout_input host input ≡ ok tt
    pub key_fits : validate_idempotency_key key ≡ ok tt
    pub unused :
        ((key == "") ≡ true)
        ⊎ ((((key == "") ≡ false)) × (find_row (has_idempotency_key key) w.tables.orders ≡ none))
    pub priced_lines :
        build_checkout_line_items input.items (quietly w)
        ≡ (ok lines, record (quietly w) { drawn = n })
    pub drawn_token : w.entropy (suc n) ≡ some token
    pub new_row :
        insert_order draft_params w.clock w.tables.orders ≡ ok (pending_row ∷ w.tables.orders)
    pub new_items : insert_items (map (for_order draft.id) lines.db) w.tables.items ≡ ok items

  abbrev pub placed : List OrderItem → World
  placed items = record (quietly w) {
    tables = record w.tables { orders = pending_row ∷ w.tables.orders; items = items };
    drawn = suc (suc n);
  }

  module _ (canceled : ℕ → Bool) (items : List OrderItem) (f : Fresh items) where
    no_replay :
        resolve_idempotency host key (canonical_body_hash host input) (quietly w)
        ≡ (ok none, quietly w)
    unfolding resolve_idempotency call get_order_by_idempotency_key scan_order with_items
        list_order_items
    no_replay = elim f.unused [
      | inl bare ↦ rw bare refl
      | inr (named, absent) ↦ rw (named, absent) refl
    ]

    inserted :
        create_order_with_items draft_params (map (for_order draft.id) lines.db) w.clock w.tables
        ≡ (ok tt, (placed items).tables)
    unfolding create_order_with_items commit_order
    inserted = rw (f.new_row, f.new_items) refl

    -- It comes to the call of Stripe with its pending order stored.
    pub reaches-open_session :
        create_checkout_session host frontend canceled key input (quietly w)
        ≡ open_session host canceled draft (placed items)
    unfolding create_checkout_session or_new new_checkout after_order_insert insert_pending_order
        call new_id generate_order_access_token draw_token token_of
    reaches-open_session =
        rw (f.valid, f.key_fits, no_replay, f.priced_lines, f.drawn_token, inserted) refl
