-- ===== src/Db/EffectLaws.antt =====
-- What a completion's update does to the order that it is about.
use stripe_payment_integrati.Db.Table.{
  find_row, Keyed, affected, find_row-Keyed, affected-zero, affected-pos, update_rows-none,
  find_row-update_rows,
}
use stripe_payment_integrati.Domain.{OrderStatus, effect_satisfied}
use stripe_payment_integrati.Db.Webhooks.{
  WebhookCompletion, is_order, order_effect, ensure_order_webhook_effect, may_transition, moved_to,
}
use stripe_payment_integrati.Prelude.{
  ◌≡◌, refl, true, false, some, ℕ, List, Bool, ◌&&◌, if◌then◌else◌, eq_refl, ltb, arith,
}
use stripe_payment_integrati.Db.{ok, err, Order, no_effect}

module _ (c : WebhookCompletion) (now : ℕ) (orders : List Order) (p : Order → Bool) (o : Order)
    (t : OrderStatus) (found : find_row p orders ≡ some o) where
  takes : Order → Bool
  takes q = is_order o.id q && may_transition c.allowed_from q

  -- The order is in a status that the completion allows: the row is updated.
  pub effect-applies :
      may_transition c.allowed_from o ≡ true
      → ((q : Order) → p (moved_to t c.payment_intent_id c.paid_at now q) ≡ p q)
      → ((order_effect false (some o.id) (some t) c now orders).0 ≡ ok tt)
        × (find_row p (order_effect false (some o.id) (some t) c now orders).1
            ≡ some (moved_to t c.payment_intent_id c.paid_at now o))
  unfolding order_effect ensure_order_webhook_effect takes
  effect-applies h keeps =
      let own : takes o ≡ true = rw (eq_refl o.id, h) refl in
      let hit : ltb 0 (affected takes orders) ≡ true =
        ground (arith, affected-pos p takes orders o found own) in
      (
        rw hit,
        rw
            (find_row-update_rows p takes (moved_to t c.payment_intent_id c.paid_at now) orders
              keeps)
            (rw found (rw own)),
      )

  -- It is not: nothing is updated, and the answer is whether the effect is there already.
  pub effect-skips :
      Keyed (λ q. q.id) orders
      → may_transition c.allowed_from o ≡ false
      → order_effect false (some o.id) (some t) c now orders
        ≡ (if effect_satisfied o.status t false then ok tt else err no_effect, orders)
  unfolding order_effect ensure_order_webhook_effect takes
  effect-skips keyed h =
      let own : find_row (is_order o.id) orders ≡ some o =
        find_row-Keyed (λ q. q.id) p orders o keyed found in
      let miss : affected takes orders ≡ 0 =
        affected-zero (λ q. q.id) o.id (may_transition c.allowed_from) orders o keyed own h in
      rw (
        update_rows-none takes (moved_to t c.payment_intent_id c.paid_at now) orders miss,
        miss,
        own,
      )
