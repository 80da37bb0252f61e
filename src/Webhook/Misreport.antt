-- ===== src/Webhook/Misreport.antt =====
-- Reports of a payment that do not match the order.
use stripe_payment_integrati.Prelude.Text.{equal_fold}
use stripe_payment_integrati.Prelude.Int.{ℤ, leb_ℤ, pos, eqb_ℤ}
use stripe_payment_integrati.World.Scan.{scan_order, with_items}
use stripe_payment_integrati.Db.Orders.{list_order_items}
use stripe_payment_integrati.Domain.{WebhookStatus}
use stripe_payment_integrati.Webhook.{processing_failed, handle_event}
use stripe_payment_integrati.World.{call, World, quietly}
use stripe_payment_integrati.Webhook.Delivery.{Ready}
use stripe_payment_integrati.Webhook.Answers.{Builds, Leaves, delivery-Verdict, no_completion}
use stripe_payment_integrati.Db.Orders.{has_session, get_order_by_session_id}
use stripe_payment_integrati.Webhook.Payment.{
  ReportsPayment, completed, succeeded, ReportsPayment-is_handled,
}
use stripe_payment_integrati.Completion.{
  build_completion, completion_session_completed, completion_async_succeeded, resolve_webhook_order,
  verify_amount, verify_checkout_session_amount,
}
use stripe_payment_integrati.Db.Table.{find_row}
use stripe_payment_integrati.Stripe.{Sdk, Event, CheckoutSession, SessionStatus}
use stripe_payment_integrati.Prelude.{
  ◌≡◌, none, some, ◌⊎◌, inl, String, inr, true, false, ◌==◌, arith, refl, ap, Bool-cases,
}
use stripe_payment_integrati.Db.{
  err, Error, order_not_found, Order, EventType, Result, missing_amount, amount_mismatch,
  missing_currency, currency_mismatch,
}

-- What is wrong with an amount and a currency that are reported for an order. Each is enough by itself.
pub data Differs (sdk : Sdk) (o : Order) (amount : ℤ) (currency : String) : Type 0 where
  not_positive : leb_ℤ amount (pos 0) ≡ true → Differs sdk o amount currency
  other_amount : eqb_ℤ o.total_amount_cents amount ≡ false → Differs sdk o amount currency
  no_currency : currency ≡ "" → Differs sdk o amount currency
  -- not the order's, whatever the case of its letters
  other_currency :
      equal_fold sdk.case_fold currency o.currency ≡ false → Differs sdk o amount currency

abbrev Refused : Result (Unit {0}) → Type 0
Refused r = (x : Error) × (r ≡ err x)

-- The test on the amount, then on the currency, refuses whatever differs.
verify_amount-Differs :
    (sdk : Sdk) (o : Order) (amount : ℤ) (currency : String)
    → Differs sdk o amount currency
    → Refused (verify_amount sdk o amount currency)
unfolding verify_amount
verify_amount-Differs sdk o amount currency d = elim (Bool-cases (leb_ℤ amount (pos 0))) [
  | inl none_paid ↦ (missing_amount, rw none_paid refl)
  | inr positive ↦ elim (Bool-cases (eqb_ℤ o.total_amount_cents amount)) [
    | inr other ↦ (amount_mismatch, rw (positive, other) refl)
    | inl same ↦ elim (Bool-cases (currency == "")) [
      | inl blank ↦ (missing_currency, rw (positive, same, blank) refl)
      | inr named ↦
          (currency_mismatch, rw (positive, same, named, foreign d positive same named) refl)
    ]
  ]
]
  where
    foreign :
        Differs sdk o amount currency
        → leb_ℤ amount (pos 0) ≡ false
        → eqb_ℤ o.total_amount_cents amount ≡ true
        → (currency == "") ≡ false
        → equal_fold sdk.case_fold currency o.currency ≡ false
    foreign (not_positive h) positive same named = absurd (ground arith)
    foreign (other_amount h) positive same named = absurd (ground arith)
    foreign (no_currency h) positive same named = absurd (ground (arith, ap (λ c. c == "") h))
    foreign (other_currency h) positive same named = h

module _ (sdk : Sdk) (e : Event) (w : World) (s : CheckoutSession)
    (parsed : sdk.parse_session e.raw ≡ some s) where
  -- The report matches no order, or not the order's amount or currency.
  pub data Mismatch : Type 0 where
    no_order : find_row (has_session s.id) w.tables.orders ≡ none → Mismatch
    differs :
        (o : Order)
        → find_row (has_session s.id) w.tables.orders ≡ some o
        → Differs sdk o s.amount_total s.currency
        → Mismatch

  -- what the amounts are tested to, once an order is found
  Unbuildable : Error → Type 0
  Unbuildable x =
      ((find_row (has_session s.id) w.tables.orders ≡ none) × (x ≡ order_not_found))
      ⊎ ((o : Order) × (find_row (has_session s.id) w.tables.orders ≡ some o)
          × (verify_amount sdk o s.amount_total s.currency ≡ err x))

  unbuildable : Mismatch → (x : Error) × Unbuildable x
  unfolding Unbuildable
  unbuildable (no_order missing) = (order_not_found, inl (missing, refl))
  unbuildable (differs o found d) =
      let (x, refused) = verify_amount-Differs sdk o s.amount_total s.currency d in
      (x, inr (o, found, refused))

  completed-err :
      (x : Error)
      → Unbuildable x
      → e.event_type ≡ EventType.session_completed
      → s.status ≡ SessionStatus.complete
      → Builds sdk e w (err x)
  unfolding Unbuildable build_completion completion_session_completed resolve_webhook_order
      scan_order with_items list_order_items get_order_by_session_id verify_checkout_session_amount
      call
  completed-err x (inl (missing, same)) type complete v orders clock =
      rw (type, parsed, complete, orders, missing, same)
  completed-err x (inr (o, found, refused)) type complete v orders clock =
      rw (type, parsed, complete, orders, found, refused)

  succeeded-err :
      (x : Error)
      → Unbuildable x
      → e.event_type ≡ EventType.async_payment_succeeded
      → Builds sdk e w (err x)
  unfolding Unbuildable build_completion completion_async_succeeded resolve_webhook_order scan_order
      with_items list_order_items get_order_by_session_id verify_checkout_session_amount call
  succeeded-err x (inl (missing, same)) type v orders clock =
      rw (type, parsed, orders, missing, same)
  succeeded-err x (inr (o, found, refused)) type v orders clock =
      rw (type, parsed, orders, found, refused)

  pub mismatch-Builds : Mismatch → ReportsPayment e s → (x : Error) × Builds sdk e w (err x)
  mismatch-Builds m (completed type complete paid) =
      let (x, why) = unbuildable m in (x, completed-err x why type complete)
  mismatch-Builds m (succeeded type) = let (x, why) = unbuildable m in (x, succeeded-err x why type)

  -- An undisturbed delivery of a report of a payment for a session that no order has, or whose amount
  -- is not positive or not the order's total, or whose currency is missing or not the order's: Stripe
  -- is told that processing failed, no order changes, and the event is marked as failed.
  pub misreport_lem :
      Mismatch
      → ReportsPayment e s
      → Ready sdk e w
      → Leaves e processing_failed w.tables.orders WebhookStatus.failed
          (handle_event sdk e (quietly w))
  misreport_lem m reports ready =
      let (x, built) = mismatch-Builds m reports in
      delivery-Verdict sdk e w (ReportsPayment-is_handled reports) ready built (no_completion x)
