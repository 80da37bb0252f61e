-- ===== src/Checkout/Create/Failed.antt =====
-- backend/internal/service/order.go: a first request for which Stripe opens no session.
use stripe_payment_integrati.Checkout.Session.Opening.{open_session-refused}
use stripe_payment_integrati.Checkout.Create.{create_checkout_session}
use stripe_payment_integrati.Db.{err, Order, OrderItem, Result, Error}
use stripe_payment_integrati.Checkout.Session.{
  generate_order_number, build_checkout_urls, pending_order, stripe_error,
  build_stripe_session_params,
}
use stripe_payment_integrati.Checkout.Create.Fresh.{
  Fresh, pending_row, draft, reaches-open_session, placed,
}
use stripe_payment_integrati.Db.Webhooks.{is_order}
use stripe_payment_integrati.Checkout.Items.{LineItems}
use stripe_payment_integrati.Db.Orders.{has_idempotency_key, canceled_for, cancel_order}
use stripe_payment_integrati.World.{World, quietly}
use stripe_payment_integrati.Checkout.{Host, CreateCheckoutInput, CheckoutResult}
use stripe_payment_integrati.Db.Table.{find_row, update_rows}
use stripe_payment_integrati.Prelude.{
  ℕ, String, ◌==◌, ◌≡◌, refl, Bool, false, some, none, List, [], ◌∷◌, arith, eq_refl, Bool-cases,
  inl, inr,
}

key_stays_free :
    (key id reason : String) (now : ℕ) (orders : List Order)
    → find_row (has_idempotency_key key) orders ≡ none
    → find_row
        (has_idempotency_key key)
        (update_rows (is_order id) (canceled_for reason now) orders)
      ≡ none
unfolding find_row update_rows
key_stays_free key id reason now [] h = refl
key_stays_free key id reason now (q ∷ orders) h = elim (Bool-cases (is_order id q)) [
  | inl own ↦ rw own (key_stays_free key id reason now orders (ground arith))
  | inr other ↦ rw other (ground (arith, key_stays_free key id reason now orders))
]

module _ (host : Host) (frontend : String) (key : String) (input : CreateCheckoutInput) (w : World)
    (lines : LineItems) (n : ℕ) (token : String) (canceled : ℕ → Bool) (items : List OrderItem)
    (f : Fresh host frontend key input w lines n token items) where
  abbrev pub failed : Result CheckoutResult × World
  failed = create_checkout_session host frontend canceled key input (quietly w)

  abbrev pub failed_row : Order
  failed_row =
      canceled_for "stripe_api_error" w.clock (pending_row host frontend key input w lines n token)

  -- A first request that nothing disturbs, but for which Stripe opens no session, is answered with an
  -- error; its order is stored as canceled, without its key, so that the key may be used again.
  pub create-failed :
      (e : Error)
      → (key == "") ≡ false
      → host.create_session
          (build_stripe_session_params
            (w.ids n)
            (generate_order_number host w.clock (w.ids n))
            input
            lines
            (build_checkout_urls frontend input.ui_mode))
          (w.ids n)
        ≡ err e
      → (failed.0 ≡ err (stripe_error "failed to create checkout session"))
        × (find_row (is_order (w.ids n)) failed.1.tables.orders ≡ some failed_row)
        × (find_row (has_idempotency_key key) failed.1.tables.orders ≡ none)
  unfolding cancel_order find_row update_rows pending_order
  create-failed e named refused = elim f.unused [
    | inl bare ↦ absurd (ground arith)
    | inr (x, absent) ↦
        rw
          (
            reaches-open_session host frontend key input w lines n token canceled items f,
            open_session-refused host canceled (draft host frontend key input w lines n token)
                (placed host frontend key input w lines n token items) e refused,
            eq_refl (w.ids n),
          )
          (
            refl,
            rw (eq_refl (w.ids n)) refl,
            key_stays_free key (w.ids n) "stripe_api_error" w.clock w.tables.orders absent,
          )
  ]
