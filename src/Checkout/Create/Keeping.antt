-- ===== src/Checkout/Create/Keeping.antt =====
-- CreateCheckoutSession keeps every relation between tables that its statements keep.
use stripe_payment_integrati.Checkout.Canonical.{canonical_body_hash}
use stripe_payment_integrati.Checkout.Validation.{validate_checkout_input, validate_idempotency_key}
use stripe_payment_integrati.Checkout.Replay.Keeping.{access_token-Keeps, resolve-Keeps}
use stripe_payment_integrati.Checkout.Session.Keeping.{open-Keeps}
use stripe_payment_integrati.Checkout.Items.Keeping.{lines-Keeps}
use stripe_payment_integrati.Checkout.Session.{
  Draft, pending_order, generate_order_number, build_checkout_urls,
}
use stripe_payment_integrati.Checkout.Create.{
  lost_race, after_order_insert, insert_pending_order, new_checkout, or_new, Draft,
  create_checkout_session, pending_order, validate_checkout_input, for_order, generate_order_number,
  validate_idempotency_key, build_checkout_urls, canonical_body_hash,
}
use stripe_payment_integrati.Prelude.{ℕ, String, ◌==◌, Bool, Option, none, some, map}
use stripe_payment_integrati.Db.{Tables, Result, ok, err, Error}
use stripe_payment_integrati.Rules.{OrderRules}
use stripe_payment_integrati.World.Keeps.{
  Keeps, Keeps-pure, Keeps-bind, Keeps-call, Keeps-new_id, Keeps-read_clock, Keeps-if,
  Keeps-try_bind, Keeps-given,
}
use stripe_payment_integrati.Checkout.{Host, CreateCheckoutInput, CheckoutResult}

module _ {R : Tables → Tables → Type 0} (rules : OrderRules R) where
  module _ (host : Host) (frontend : String) (canceled : ℕ → Bool) where
    lost-Keeps : (r : Option CheckoutResult) → Keeps R (lost_race host frontend canceled r)
    unfolding lost_race
    lost-Keeps none = Keeps-pure rules.order _
    lost-Keeps (some r) = Keeps-pure rules.order (ok r)

    inserted-Keeps :
        (d : Draft) (r : Result (Unit {0}))
        → Keeps R (after_order_insert host frontend canceled d r)
    unfolding after_order_insert
    inserted-Keeps d (ok _) = open-Keeps rules host canceled d
    inserted-Keeps d (err Error.unique_violation) =
        Keeps-if rules.order (d.key == "") _ _ (Keeps-pure rules.order _)
          (Keeps-try_bind rules.order _ _ (resolve-Keeps rules host d.key d.body_hash) lost-Keeps)
    inserted-Keeps d (err e) = Keeps-pure rules.order (err e)

    pending-Keeps : (d : Draft) → Keeps R (insert_pending_order host frontend canceled d)
    unfolding insert_pending_order
    pending-Keeps d = Keeps-call rules.order _ (
        rules.create_order
          (pending_order d.id d.number d.body_hash d.token_hash d.key d.input d.lines d.urls)
          (map (for_order d.id) d.lines.db))

    new-Keeps :
        (key : String) (input : CreateCheckoutInput) (hash : String)
        → Keeps R (new_checkout host frontend canceled key input hash)
    unfolding new_checkout
    new-Keeps key input hash =
        Keeps-try_bind rules.order _ _ (lines-Keeps rules input.items) λ lines.
          Keeps-bind rules.order _ _ (Keeps-new_id rules.order) λ id.
            Keeps-bind rules.order _ _ (Keeps-read_clock rules.order) λ now.
              Keeps-try_bind rules.order _ _ (access_token-Keeps rules host) λ t.
                let d : Draft = record {
                  id = id;
                  number = generate_order_number host now id;
                  body_hash = hash;
                  token = t.0;
                  token_hash = t.1;
                  key = key;
                  input = input;
                  lines = lines;
                  urls = build_checkout_urls frontend input.ui_mode;
                } in
                Keeps-bind rules.order _ _ (pending-Keeps d) (inserted-Keeps d)

    or_new-Keeps :
        (key : String) (input : CreateCheckoutInput) (hash : String) (r : Option CheckoutResult)
        → Keeps R (or_new host frontend canceled key input hash r)
    unfolding or_new
    or_new-Keeps key input hash none = new-Keeps key input hash
    or_new-Keeps key input hash (some r) = Keeps-pure rules.order (ok r)

    pub create-Keeps :
        (key : String) (input : CreateCheckoutInput)
        → Keeps R (create_checkout_session host frontend canceled key input)
    unfolding create_checkout_session
    create-Keeps key input = Keeps-given rules.order (validate_checkout_input host input) _ λ _.
        Keeps-given rules.order (validate_idempotency_key key) _ λ _.
          Keeps-try_bind rules.order _ _
            (resolve-Keeps rules host key (canonical_body_hash host input))
            (or_new-Keeps key input (canonical_body_hash host input))
