-- ===== src/Completion/Reading.antt =====
-- Building a completion reads the store and changes nothing in it.
use stripe_payment_integrati.World.Scan.{scan_order, scan-Keeps, row_of}
use stripe_payment_integrati.Prelude.{String, ◌==◌, refl}
use stripe_payment_integrati.Db.{Tables, Result, ok, EventType}
use stripe_payment_integrati.Db.Orders.{get_order_by_session_id, get_order_by_payment_intent_id}
use stripe_payment_integrati.World.Keeps.{
  Preorder, Keeps, Keeps-pure, Keeps-bind, Keeps-read_clock, Keeps-if, Keeps-try_bind,
}
use stripe_payment_integrati.Stripe.{Event, CheckoutSession, Charge, Sdk}
use stripe_payment_integrati.Completion.{
  or_error, lift, parse_session, parse_charge, resolve_webhook_order, refund_completion,
  refunded_charge, completion_charge_refunded, completed_session, session_completion,
  succeeded_completion, completion_session_completed, completion_async_succeeded,
  completion_async_failed, completion_session_expired, completion_for, build_completion,
  is_complete, verify_checkout_session_amount, charge_payment_intent_id,
}

module _ {R : Tables → Tables → Type 0} (order : Preorder R) (sdk : Sdk) where
  lifted : {A : Type 0} (r : Result A) → Keeps R (lift r)
  lifted r = Keeps-pure order r

  find_session-Keeps : (k : String) → Keeps R (scan_order (get_order_by_session_id k))
  unfolding get_order_by_session_id
  find_session-Keeps k = scan-Keeps order (get_order_by_session_id k) (λ t db. refl)

  find_payment_intent-Keeps : (k : String) → Keeps R (scan_order (get_order_by_payment_intent_id k))
  unfolding get_order_by_payment_intent_id
  find_payment_intent-Keeps k = scan-Keeps order (get_order_by_payment_intent_id k) (λ t db. refl)

  resolve-Keeps : (k : String) → Keeps R (resolve_webhook_order sdk k)
  unfolding resolve_webhook_order
  resolve-Keeps k =
      Keeps-try_bind order _ _ (find_session-Keeps k) (λ found. lifted (or_error _ (row_of found)))

  refunded_charge-Keeps : (c : Charge) (id : String) → Keeps R (refunded_charge sdk c id)
  unfolding refunded_charge
  refunded_charge-Keeps c id =
      Keeps-if order (charge_payment_intent_id sdk c == "") _ _ (lifted _) (
        Keeps-try_bind order _ _ (find_payment_intent-Keeps _) (λ found.
          Keeps-try_bind order (lift (or_error _ (row_of found))) _ (lifted _)
            (λ o. lifted (refund_completion sdk o c id))))

  charge_refunded-Keeps : (e : Event) → Keeps R (completion_charge_refunded sdk e)
  unfolding completion_charge_refunded
  charge_refunded-Keeps e =
      Keeps-try_bind order (lift (parse_charge sdk e)) _ (lifted _)
        (λ c. Keeps-if order c.refunded _ _ (refunded_charge-Keeps c e.id) (lifted _))

  completed_session-Keeps :
      (s : CheckoutSession) (id : String) → Keeps R (completed_session sdk s id)
  unfolding completed_session
  completed_session-Keeps s id = Keeps-try_bind order _ _ (resolve-Keeps s.id) (λ o.
      Keeps-try_bind order (lift (verify_checkout_session_amount sdk o s)) _ (lifted _) (λ _.
        Keeps-bind order _ _ (Keeps-read_clock order)
          (λ now. lifted (ok (session_completion sdk o s id now)))))

  session_completed-Keeps : (e : Event) → Keeps R (completion_session_completed sdk e)
  unfolding completion_session_completed
  session_completed-Keeps e =
      Keeps-try_bind order (lift (parse_session sdk e)) _ (lifted _)
        (λ s. Keeps-if order (is_complete s.status) _ _ (completed_session-Keeps s e.id) (lifted _))

  async_succeeded-Keeps : (e : Event) → Keeps R (completion_async_succeeded sdk e)
  unfolding completion_async_succeeded
  async_succeeded-Keeps e = Keeps-try_bind order (lift (parse_session sdk e)) _ (lifted _) (λ s.
      Keeps-try_bind order _ _ (resolve-Keeps s.id) (λ o.
        Keeps-try_bind order (lift (verify_checkout_session_amount sdk o s)) _ (lifted _) (λ _.
          Keeps-bind order _ _ (Keeps-read_clock order)
            (λ now. lifted (ok (succeeded_completion sdk o s e.id now))))))

  async_failed-Keeps : (e : Event) → Keeps R (completion_async_failed sdk e)
  unfolding completion_async_failed
  async_failed-Keeps e =
      Keeps-try_bind order (lift (parse_session sdk e)) _ (lifted _)
        (λ s. Keeps-try_bind order _ _ (resolve-Keeps s.id) (λ o. lifted _))

  session_expired-Keeps : (e : Event) → Keeps R (completion_session_expired sdk e)
  unfolding completion_session_expired
  session_expired-Keeps e =
      Keeps-try_bind order (lift (parse_session sdk e)) _ (lifted _)
        (λ s. Keeps-try_bind order _ _ (resolve-Keeps s.id) (λ o. lifted _))

  completion_for-Keeps : (t : EventType) (e : Event) → Keeps R (completion_for sdk t e)
  unfolding completion_for
  completion_for-Keeps EventType.session_completed e = session_completed-Keeps e
  completion_for-Keeps EventType.async_payment_succeeded e = async_succeeded-Keeps e
  completion_for-Keeps EventType.async_payment_failed e = async_failed-Keeps e
  completion_for-Keeps EventType.session_expired e = session_expired-Keeps e
  completion_for-Keeps EventType.charge_refunded e = charge_refunded-Keeps e
  completion_for-Keeps (EventType.other s) e = lifted _

  pub build_completion-Keeps : (e : Event) → Keeps R (build_completion sdk e)
  unfolding build_completion
  build_completion-Keeps e = completion_for-Keeps e.event_type e
