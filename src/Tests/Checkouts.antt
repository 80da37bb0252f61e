-- ===== src/Tests/Checkouts.antt =====
-- The theorems on requests and orders at concrete requests.
use stripe_payment_integrati.Checkout.Replay.{resolve_idempotency}
use stripe_payment_integrati.Checkout.Replay.Verdicts.{KeyVerdict, resolve_idempotency-KeyVerdict}
use stripe_payment_integrati.Checkout.Session.{persist_session_with_retry}
use stripe_payment_integrati.Db.Orders.{has_session}
use stripe_payment_integrati.Checkout.Access.{get_order, get_order_by_session}
use stripe_payment_integrati.Db.Webhooks.{is_order}
use stripe_payment_integrati.Checkout.Access.Guard.{Authorized, reads_need_token}
use stripe_payment_integrati.Checkout.Items.Totals.{Tallied, build_checkout_line_items-Tallied}
use stripe_payment_integrati.Checkout.Validation.Accepted.{Acceptable, validate_checkout_input_iff}
use stripe_payment_integrati.Domain.{OrderStatus}
use stripe_payment_integrati.Tests.{order_in, world_of, paid_session, store_of, shop, request}
use stripe_payment_integrati.Checkout.Items.{build_checkout_line_items}
use stripe_payment_integrati.Checkout.Session.Storing.{
  After, Storable, answered, calmly, persist_session_with_retry-After,
}
use stripe_payment_integrati.Db.Table.{find_row, any_row}
use stripe_payment_integrati.World.{World, Fault, quietly}
use stripe_payment_integrati.World.Yields.{Yields, OnOk}
use stripe_payment_integrati.Checkout.Validation.{validate_checkout_input}
use stripe_payment_integrati.Db.{Order, ok, canceled_context}
use stripe_payment_integrati.Prelude.{◌≡◌, ◌↔◌, refl, false, some, none, [], ◌∷◌, true}

validate_checkout_input_iff_example :
    (validate_checkout_input shop request ≡ ok tt) ↔ Acceptable shop request
validate_checkout_input_iff_example = validate_checkout_input_iff shop request

build_checkout_line_items-Tallied_example :
    Yields (OnOk Tallied) (build_checkout_line_items request.items)
build_checkout_line_items-Tallied_example = build_checkout_line_items-Tallied request.items

reads_need_token_example :
    Yields (OnOk (Authorized shop "token" (is_order "order_1"))) (get_order shop "order_1" "token")
    × Yields
        (OnOk (Authorized shop "token" (has_session "cs_1")))
        (get_order_by_session shop "cs_1" "token")
reads_need_token_example = reads_need_token shop "order_1" "cs_1" "token"

abbrev keyed_order : Order
keyed_order = record (order_in OrderStatus.pending none) { idempotency_key = some "key" }

abbrev keyed_world : World
keyed_world = world_of (store_of keyed_order) []

resolve_idempotency-KeyVerdict_example :
    KeyVerdict shop "a@b.c" keyed_world keyed_order
      (resolve_idempotency shop "key" "a@b.c" (quietly keyed_world))
unfolding find_row
resolve_idempotency-KeyVerdict_example =
    resolve_idempotency-KeyVerdict shop "key" "a@b.c" keyed_world keyed_order refl (refl, tt) refl

pending_Storable :
    Storable "order_1" "cs_1"
      (order_in OrderStatus.pending none)
      (store_of (order_in OrderStatus.pending none)).orders
unfolding find_row any_row
pending_Storable = record { row = refl; free = refl }

persist_session_with_retry-After_example :
    After
      (λ k. false)
      (λ k. refl)
      "order_1"
      paid_session
      (answered
        ((1, Fault.reply_lost) ∷ (50, Fault.refused) ∷ (100, Fault.up) ∷ [])
        canceled_context)
      (order_in OrderStatus.pending none)
      true
      (persist_session_with_retry
        (λ k. false)
        "order_1"
        paid_session
        (record (world_of (store_of (order_in OrderStatus.pending none)) []) {
          schedule = calmly ((1, Fault.reply_lost) ∷ (50, Fault.refused) ∷ (100, Fault.up) ∷ []);
        }))
persist_session_with_retry-After_example =
    persist_session_with_retry-After (λ k. false) (λ k. refl) "order_1" paid_session
      (1, Fault.reply_lost) (50, Fault.refused) (100, Fault.up)
      (world_of (store_of (order_in OrderStatus.pending none)) [])
      (order_in OrderStatus.pending none) pending_Storable
