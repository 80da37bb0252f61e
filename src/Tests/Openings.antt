-- ===== src/Tests/Openings.antt =====
-- The theorems on new checkouts at concrete requests.
use stripe_payment_integrati.Checkout.Session.Opening.{outcome, compensation_lem, silent_lost}
use stripe_payment_integrati.Checkout.Create.Failed.{failed_row, create-failed}
use stripe_payment_integrati.Checkout.Create.{create_checkout_session}
use stripe_payment_integrati.Checkout.Create.Fresh.{Fresh, draft}
use stripe_payment_integrati.Db.Products.{get_products_by_ids}
use stripe_payment_integrati.Checkout.Create.Again.{
  Opens, open_row, opened, answer, create-get_order, create-create,
}
use stripe_payment_integrati.Checkout.Session.{pending_order, stripe_error, Draft}
use stripe_payment_integrati.Db.Orders.{
  update_order_access_token_hash, has_idempotency_key, update_order_session, update_order_status,
  null_if_empty, canceled_for,
}
use stripe_payment_integrati.Checkout.Access.{get_order, valid_order_id}
use stripe_payment_integrati.Db.Webhooks.{is_order}
use stripe_payment_integrati.Domain.{OrderStatus}
use stripe_payment_integrati.Db.NewOrders.{new_item, insert_order, insert_items}
use stripe_payment_integrati.Tests.{order_in, world_of, paid_session, store_of, shop, lamp, request}
use stripe_payment_integrati.World.{Moment, World, Fault, quietly, call, act, new_id}
use stripe_payment_integrati.Prelude.Int.{pos, int32, ◌*ℤ◌, ◌+ℤ◌}
use stripe_payment_integrati.Checkout.Items.{
  LineItems, add_line, no_items, db_line, build_checkout_line_items, add_items,
}
use stripe_payment_integrati.Db.Table.{
  find_row, any_row, filter_rows, with_key, update_rows, affected,
}
use stripe_payment_integrati.Checkout.Validation.{
  validate_checkout_input, validate_items, validate_metadata, validate_entries,
  validate_idempotency_key,
}
use stripe_payment_integrati.Db.{Order, OrderItem, ok, err, stripe_failed, Result}
use stripe_payment_integrati.Checkout.{Host, CheckoutResult}
use stripe_payment_integrati.Prelude.{
  ◌≡◌, refl, false, some, none, List, [], ◌∷◌, if◌then◌else◌, leb, inr,
}
use stripe_payment_integrati.Prelude.Text.{trim_space}

abbrev closed_shop : Host
closed_shop = record shop { create_session = λ p id. err stripe_failed }

abbrev shop_world : World
shop_world =
    record (world_of
      (record {
        products = lamp ∷ [];
        orders = [];
        items = [];
        events = [];
        customers = [];
        sessions = [];
        reset_tokens = [];
        verification_tokens = [];
        buckets = [];
      })
      []) {
        ids = λ n. "0123456789abcdefghij";
        entropy = λ n. some (if leb n 2 then "first" else "second");
      }

abbrev lamp_lines : LineItems
lamp_lines =
    add_line no_items "usd" lamp (record { product_id = "lamp"; quantity = pos 2 })
      "0123456789abcdefghij"

abbrev stored_items : List OrderItem
stored_items =
    new_item
      (record (db_line lamp (record { product_id = "lamp"; quantity = pos 2 })
        "0123456789abcdefghij") { order_id = "0123456789abcdefghij" })
    ∷ []

lamp_Fresh : Fresh shop "http://shop" "key" request shop_world lamp_lines 1 "first" stored_items
unfolding validate_checkout_input validate_items validate_metadata validate_entries
    validate_idempotency_key trim_space find_row any_row build_checkout_line_items add_items
    get_products_by_ids filter_rows call act new_id insert_order insert_items pending_order int32
    ◌*ℤ◌ ◌+ℤ◌
lamp_Fresh = record {
  valid = refl;
  key_fits = refl;
  unused = inr (refl, refl);
  priced_lines = refl;
  drawn_token = refl;
  new_row = refl;
  new_items = refl;
}

lamp_Opens :
    Opens shop "http://shop" "key" request shop_world lamp_lines 1 "first"
      (λ k. false)
      stored_items
      lamp_Fresh
      paid_session
unfolding any_row
lamp_Opens = record { created = refl; new_session = refl }

abbrev lamp_answer : CheckoutResult
lamp_answer =
    answer shop "http://shop" "key" request shop_world lamp_lines 1 "first" (λ k. false)
      stored_items lamp_Fresh paid_session

abbrev lamp_row : Order
lamp_row =
    open_row shop "http://shop" "key" request shop_world lamp_lines 1 "first" (λ k. false)
      stored_items lamp_Fresh paid_session

abbrev lamp_opened : World
lamp_opened =
    opened shop "http://shop" "key" request shop_world lamp_lines 1 "first" (λ k. false)
      stored_items lamp_Fresh paid_session

create-get_order_example :
    (create_checkout_session shop "http://shop" (λ k. false) "key" request (quietly shop_world)
      ≡ (ok lamp_answer, lamp_opened))
    × (lamp_row.status ≡ OrderStatus.pending)
    × (get_order shop lamp_answer.order_id lamp_answer.access_token lamp_opened ≡ (
      ok (
          some (
            lamp_row,
            filter_rows (with_key (λ i. i.order_id) "0123456789abcdefghij") stored_items,
          )),
      lamp_opened,
    ))
unfolding valid_order_id trim_space
create-get_order_example =
    create-get_order shop "http://shop" "key" request shop_world lamp_lines 1 "first" (λ k. false)
      stored_items lamp_Fresh paid_session lamp_Opens refl refl refl

create-create_example :
    create_checkout_session shop "http://shop" (λ k. false) "key" request lamp_opened ≡ (
      ok (record lamp_answer { access_token = "second" }),
      record lamp_opened {
        tables =
            (update_order_access_token_hash "0123456789abcdefghij" "digest" 100
              lamp_opened.tables).1;
        drawn = 4;
      },
    )
create-create_example =
    create-create shop "http://shop" "key" request shop_world lamp_lines 1 "first" (λ k. false)
      stored_items lamp_Fresh paid_session lamp_Opens "second" refl refl refl

closed_Fresh :
    Fresh closed_shop "http://shop" "key" request shop_world lamp_lines 1 "first" stored_items
unfolding validate_checkout_input validate_items validate_metadata validate_entries
    validate_idempotency_key trim_space find_row any_row build_checkout_line_items add_items
    get_products_by_ids filter_rows call act new_id insert_order insert_items pending_order int32
    ◌*ℤ◌ ◌+ℤ◌
closed_Fresh = record {
  valid = refl;
  key_fits = refl;
  unused = inr (refl, refl);
  priced_lines = refl;
  drawn_token = refl;
  new_row = refl;
  new_items = refl;
}

abbrev closed_outcome : Result CheckoutResult × World
closed_outcome =
    create_checkout_session closed_shop "http://shop" (λ k. false) "key" request
      (quietly shop_world)

create-failed_example :
    (closed_outcome.0 ≡ err (stripe_error "failed to create checkout session"))
    × (find_row (is_order "0123456789abcdefghij") closed_outcome.1.tables.orders
        ≡ some (
            failed_row closed_shop "http://shop" "key" request shop_world lamp_lines 1 "first"
              (λ k. false)
              stored_items
              closed_Fresh))
    × (find_row (has_idempotency_key "key") closed_outcome.1.tables.orders ≡ none)
create-failed_example =
    create-failed closed_shop "http://shop" "key" request shop_world lamp_lines 1 "first"
      (λ k. false) stored_items closed_Fresh stripe_failed refl refl

abbrev order_1_draft : Draft
order_1_draft = record (draft shop "http://shop" "" request shop_world lamp_lines 1 "first") {
  id = "order_1";
}

-- The webhook service's update runs before the order is canceled.
abbrev paid_meanwhile : Moment
paid_meanwhile = record {
  elapsed = 5;
  others = λ t db. (update_order_status "order_1" OrderStatus.paid (some "pi_1") (some t) t db).1;
  fault = Fault.up;
}

abbrev pending_store : World
pending_store = world_of (store_of (order_in OrderStatus.pending none)) []

abbrev paid_row : Order
paid_row = record (order_in OrderStatus.paid (some "pi_1")) { paid_at = some 255; updated_at = 255 }

abbrev troubled_outcome : Result CheckoutResult × World
troubled_outcome =
    outcome shop (λ k. false) order_1_draft pending_store paid_session paid_meanwhile
      Fault.reply_lost Fault.reply_lost Fault.reply_lost 0 50 100

compensation_lem_example :
    (troubled_outcome.0 ≡ err (stripe_error "failed to persist checkout session"))
    × (troubled_outcome.1.expired ≡ "cs_1" ∷ [])
    × (find_row (is_order "order_1") troubled_outcome.1.tables.orders
        ≡ some (canceled_for "persist_failed" 255 paid_row))
unfolding update_order_session update_order_status find_row any_row update_rows affected
    null_if_empty
compensation_lem_example =
    compensation_lem shop (λ k. false) order_1_draft pending_store paid_session paid_meanwhile
      Fault.reply_lost Fault.reply_lost Fault.reply_lost 0 50 100 paid_row silent_lost silent_lost
      silent_lost (λ k. refl) refl refl
