-- ===== src/Checkout/Replay/Keeping.antt =====
-- A replay keeps every relation between tables that its statements keep.
use stripe_payment_integrati.Db.Orders.{
  update_order_access_token_hash, is_canceled, get_order_by_idempotency_key,
  clear_order_idempotency_key,
}
use stripe_payment_integrati.Checkout.Replay.{
  renew_token, replay_existing, replay_found, resolve_idempotency, update_order_access_token_hash,
  is_canceled, get_order_by_idempotency_key, replay_checkout, clear_order_idempotency_key,
  extract_request_hash,
}
use stripe_payment_integrati.Checkout.Access.{generate_order_access_token, token_of}
use stripe_payment_integrati.Prelude.{
  ◌&&◌, not, String, ◌==◌, Option, none, some, refl, or_empty, List,
}
use stripe_payment_integrati.Db.{Tables, Order, OrderItem, ok}
use stripe_payment_integrati.Rules.{OrderRules}
use stripe_payment_integrati.World.Keeps.{
  Keeps, Keeps-pure, Keeps-bind, Keeps-call, Keeps-draw_token, Keeps-if, Keeps-try_bind,
}
use stripe_payment_integrati.World.Scan.{scan_order, scan-Keeps}
use stripe_payment_integrati.Checkout.{Host}

module _ {R : Tables → Tables → Type 0} (rules : OrderRules R) where
  module _ (host : Host) where
    pub access_token-Keeps : Keeps R (generate_order_access_token host)
    unfolding generate_order_access_token
    access_token-Keeps =
        Keeps-bind rules.order _ _ (Keeps-draw_token rules.order)
          (λ drawn. Keeps-pure rules.order (token_of host drawn))

    renew-Keeps : (o : Order) → Keeps R (renew_token host o)
    unfolding renew_token
    renew-Keeps o = Keeps-try_bind rules.order _ _ access_token-Keeps λ t.
        Keeps-try_bind rules.order _ _
          (Keeps-call rules.order (update_order_access_token_hash o.id t.1)
            (rules.set_token o.id t.1))
          (λ _. Keeps-pure rules.order (ok (some (replay_checkout o t.0))))

    existing-Keeps : (hash : String) (o : Order) → Keeps R (replay_existing host hash o)
    unfolding replay_existing
    existing-Keeps hash o =
        Keeps-if rules.order (is_canceled o.status) _ _
          (Keeps-try_bind rules.order _ _
            (Keeps-call rules.order (clear_order_idempotency_key o.id) (rules.clear_key o.id))
            (λ _. Keeps-pure rules.order (ok none)))
          (Keeps-if rules.order
            (not (extract_request_hash o.metadata == "")
              && not (extract_request_hash o.metadata == hash))
            _ _ (Keeps-pure rules.order _)
            (Keeps-if rules.order (or_empty o.session_id == "") _ _ (Keeps-pure rules.order _)
              (renew-Keeps o)))

    found-Keeps :
        (hash : String) (o : Option (Order × List OrderItem)) → Keeps R (replay_found host hash o)
    unfolding replay_found
    found-Keeps hash none = Keeps-pure rules.order (ok none)
    found-Keeps hash (some (o, items)) = existing-Keeps hash o

    pub resolve-Keeps : (key hash : String) → Keeps R (resolve_idempotency host key hash)
    unfolding resolve_idempotency get_order_by_idempotency_key
    resolve-Keeps key hash =
        Keeps-if rules.order (key == "") _ _ (Keeps-pure rules.order (ok none)) (
          Keeps-try_bind rules.order (scan_order (get_order_by_idempotency_key key)) _
            (scan-Keeps rules.order (get_order_by_idempotency_key key) (λ t db. refl))
            (found-Keeps hash))
