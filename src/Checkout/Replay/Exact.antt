-- ===== src/Checkout/Replay/Exact.antt =====
-- backend/internal/service/checkout.go, resolveIdempotency: the state after a replay.
use stripe_payment_integrati.World.Scan.{scan_order, with_items}
use stripe_payment_integrati.Db.Orders.{list_order_items}
use stripe_payment_integrati.Db.OrderRows.{found-affected}
use stripe_payment_integrati.Db.Webhooks.{is_order}
use stripe_payment_integrati.Db.Table.{find_row}
use stripe_payment_integrati.Db.{Order}
use stripe_payment_integrati.Checkout.{Host}
use stripe_payment_integrati.Checkout.Access.{generate_order_access_token, token_of}
use stripe_payment_integrati.Db.Orders.{
  get_order_by_idempotency_key, update_order_access_token_hash, has_idempotency_key, is_canceled,
  with_token_hash,
}
use stripe_payment_integrati.World.{call, draw_token, World, quietly}
use stripe_payment_integrati.Checkout.Replay.{
  resolve_idempotency, replay_found, replay_existing, renew_token, extract_request_hash, ok,
  replay_checkout,
}
use stripe_payment_integrati.Prelude.{
  or_empty, suc, String, ◌==◌, ◌≡◌, refl, false, some, ◌&&◌, not,
}

pub resolve_idempotency-replays :
    (host : Host) (key body_hash token : String) (w : World) (o : Order)
    → (key == "") ≡ false
    → find_row (has_idempotency_key key) w.tables.orders ≡ some o
    → find_row (is_order o.id) w.tables.orders ≡ some o
    → is_canceled o.status ≡ false
    → (not (extract_request_hash o.metadata == "")
        && not (extract_request_hash o.metadata == body_hash))
      ≡ false
    → (or_empty o.session_id == "") ≡ false
    → w.entropy w.drawn ≡ some token
    → resolve_idempotency host key body_hash (quietly w) ≡ (
      ok (some (replay_checkout o token)),
      record (quietly w) {
        tables = (update_order_access_token_hash o.id (host.digest token) w.clock w.tables).1;
        drawn = suc w.drawn;
      },
    )
unfolding resolve_idempotency replay_found replay_existing renew_token call
    get_order_by_idempotency_key scan_order with_items list_order_items
    update_order_access_token_hash draw_token generate_order_access_token token_of
resolve_idempotency-replays host key body_hash token w o named found own live fits opened drawn =
    rw
      (
        named,
        found,
        live,
        fits,
        opened,
        drawn,
        found-affected (is_order o.id) (with_token_hash (host.digest token) w.clock) w.tables.orders
            o own,
      )
      refl
