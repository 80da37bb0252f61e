-- ===== src/Checkout/Create.antt =====
-- backend/internal/service/order.go, CreateCheckoutSession.
pub mod Keeping
pub mod Fresh
pub mod Again
pub mod Failed
use stripe_payment_integrati.Checkout.Replay.{resolve_idempotency}
use stripe_payment_integrati.Checkout.Session.{
  Draft, open_session, pending_order, generate_order_number, for_order, build_checkout_urls,
}
use stripe_payment_integrati.Prelude.{ℕ, String, ◌==◌, Bool, Option, none, some, map, if◌then◌else◌}
use stripe_payment_integrati.Db.{Result, ok, err, unique_violation}
use stripe_payment_integrati.Db.NewOrders.{create_order_with_items}
use stripe_payment_integrati.World.{Try, pure, bind, try_bind, call, new_id, read_clock}
use stripe_payment_integrati.Checkout.{CreateCheckoutInput, CheckoutResult, Host}
use stripe_payment_integrati.Checkout.Validation.{validate_checkout_input, validate_idempotency_key}
use stripe_payment_integrati.Checkout.Canonical.{canonical_body_hash}
use stripe_payment_integrati.Checkout.Items.{build_checkout_line_items}
use stripe_payment_integrati.Checkout.Access.{generate_order_access_token}

module _ (host : Host) (frontend : String) (canceled : ℕ → Bool) where
  -- a replay found after another request won the race for the key
  lost_race : Option CheckoutResult → Try CheckoutResult
  lost_race none = pure (err unique_violation)
  lost_race (some r) = pure (ok r)

  unfoldable pub after_order_insert : Draft → Result (Unit {0}) → Try CheckoutResult
  unfolding lost_race
  after_order_insert d (ok _) = open_session host canceled d
  after_order_insert d (err unique_violation) =
      if d.key == ""
      then pure (err unique_violation)
      else try_bind (resolve_idempotency host d.key d.body_hash) lost_race
  after_order_insert d (err e) = pure (err e)

  unfoldable pub insert_pending_order : Draft → Try (Unit {0})
  insert_pending_order d = call (
      create_order_with_items
        (pending_order d.id d.number d.body_hash d.token_hash d.key d.input d.lines d.urls)
        (map (for_order d.id) d.lines.db))

  unfoldable pub new_checkout : String → CreateCheckoutInput → String → Try CheckoutResult
  new_checkout key input body_hash = try_bind (build_checkout_line_items input.items) λ lines.
      bind new_id λ id. bind read_clock λ now.
        try_bind (generate_order_access_token host) λ (t : String × String).
          let d : Draft = record {
            id = id;
            number = generate_order_number host now id;
            body_hash = body_hash;
            token = t.0;
            token_hash = t.1;
            key = key;
            input = input;
            lines = lines;
            urls = build_checkout_urls frontend input.ui_mode;
          } in
          bind (insert_pending_order d) (after_order_insert d)

  or_new : String → CreateCheckoutInput → String → Option CheckoutResult → Try CheckoutResult
  or_new key input body_hash none = new_checkout key input body_hash
  or_new key input body_hash (some r) = pure (ok r)

  unfoldable pub create_checkout_session : String → CreateCheckoutInput → Try CheckoutResult
  unfolding or_new
  create_checkout_session key input = try_bind (pure (validate_checkout_input host input)) λ _.
      try_bind (pure (validate_idempotency_key key)) λ _.
        try_bind (resolve_idempotency host key (canonical_body_hash host input))
          (or_new key input (canonical_body_hash host input))
