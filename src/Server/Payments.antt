-- ===== src/Server/Payments.antt =====
-- backend/internal/handler/webhooks.go behind its rate limit, over the webhook service: the report of a
-- payment from the request to the order.
use stripe_payment_integrati.Domain.{OrderStatus}
use stripe_payment_integrati.Webhook.Answers.{EventIs}
use stripe_payment_integrati.Db.Orders.{has_session}
use stripe_payment_integrati.Db.Table.{find_row}
use stripe_payment_integrati.Db.Soundness.{Sound}
use stripe_payment_integrati.Completion.{payment_intent_id}
use stripe_payment_integrati.Webhook.{handle, handle_verified, handle_event}
use stripe_payment_integrati.Webhook.Payment.{
  payment_answer, Payment, payment_order, payment_lem, LeavesOrder, payment_event,
}
use stripe_payment_integrati.Server.{router_deps, webhook_service}
use stripe_payment_integrati.Http.Api.{counting, write_error, write_json}
use stripe_payment_integrati.Http.Router.Wiring.{endpoint, rate_limit, limiter}
use stripe_payment_integrati.Http.Handlers.Webhooks.{
  stripe_webhook, record_webhook_metric, parse_webhook_event_type, write_webhook_outcome,
  webhook_outcome_label,
}
use stripe_payment_integrati.Webhook.Delivery.{Ready, ready_new, ready_failed, ready_stale}
use stripe_payment_integrati.Http.Handlers.{over_limit, with_body, read_all, serve, answer}
use stripe_payment_integrati.Http.{Writer, Request, Response, Count, Payload}
use stripe_payment_integrati.Config.{Config}
use stripe_payment_integrati.Stripe.{Sdk, Event, CheckoutSession}
use stripe_payment_integrati.Checkout.{Host}
use stripe_payment_integrati.Auth.{Vault}
use stripe_payment_integrati.Http.Router.{Libraries, quota, minute, Endpoint}
use stripe_payment_integrati.Prelude.{
  ◌∙◌, String, ◌≡◌, refl, true, false, List, ltb, arith, suc, ℕ, Bool, some, ap,
}
use stripe_payment_integrati.Db.{Bucket, Order}
use stripe_payment_integrati.Db.BucketLaws.{view, increment-Counted, increment-only}
use stripe_payment_integrati.Db.Buckets.{max_int}
use stripe_payment_integrati.World.{World, quietly, call}
use stripe_payment_integrati.Http.Middleware.Limits.{
  Net, Quota, Admission, admit, bucket_key, window_of, judge, rate_limit_by_ip_postgres,
  let_through,
}
use stripe_payment_integrati.Http.Middleware.Limits.Counting.{table_counter}

-- A request that is admitted changes nothing but the counters.
admitted_with :
    (net : Net) (q : Quota) (address : String) (w : World)
    → ltb
        (view w.tables (bucket_key net table_counter q address) (window_of q.window w.clock))
        max_int
      ≡ true
    → ltb
        (view w.tables (bucket_key net table_counter q address) (window_of q.window w.clock))
        q.limit
      ≡ true
    → (rows : List Bucket) × (admit net table_counter q address (quietly w)
        ≡ (Admission.admitted, record (quietly w) { tables = record w.tables { buckets = rows } }))
unfolding admit call judge
admitted_with net q address w room below =
    let key = bucket_key net table_counter q address in
    let start = window_of q.window w.clock in
    let done = increment-Counted key start w.clock w.tables in
    let (rows, only) = increment-only key start w.clock w.tables in
    let kept : ltb q.limit (suc (view w.tables key start)) ≡ false = ground arith in
    (rows, rw (done.answer, room, only, kept) refl)

abbrev not_processed : Writer → Response
not_processed wr = write_error wr 500 "WEBHOOK_PROCESSING_FAILED" "webhook processing failed"

-- The answer to a report of a payment, and what the counter notes, by the status of the order.
abbrev pub payment_response : Writer → OrderStatus → Response
payment_response wr OrderStatus.failed = not_processed wr
payment_response wr OrderStatus.expired = not_processed wr
payment_response wr OrderStatus.canceled = not_processed wr
payment_response wr _ = write_json wr 200 (Payload.received true)

abbrev pub payment_label : OrderStatus → String
payment_label OrderStatus.failed = "processing_failed"
payment_label OrderStatus.expired = "processing_failed"
payment_label OrderStatus.canceled = "processing_failed"
payment_label _ = "acknowledged"

responds :
    (wr : Writer) (type : String) (st : OrderStatus)
    → counting
        (record_webhook_metric type (payment_answer st))
        (write_webhook_outcome wr (payment_answer st))
      ≡ counting (Count.webhook_events type (payment_label st)) (payment_response wr st)
unfolding write_webhook_outcome record_webhook_metric webhook_outcome_label
responds wr type OrderStatus.pending = refl
responds wr type OrderStatus.processing = refl
responds wr type OrderStatus.paid = refl
responds wr type OrderStatus.refunded = refl
responds wr type OrderStatus.failed = refl
responds wr type OrderStatus.expired = refl
responds wr type OrderStatus.canceled = refl

module _ (libs : Libraries) (vault : Vault) (host : Host) (canceled : ℕ → Bool) (sdk : Sdk)
    (config : Config) (wr : Writer) (r : Request) (w : World) (e : Event) (s : CheckoutSession)
    (o : Order) where
  abbrev webhook_bucket : ℕ
  webhook_bucket =
      view w.tables (bucket_key libs.net table_counter (quota "webhooks" 120) r.remote_addr)
        (window_of minute w.clock)

  -- A request with a signed event in a body of at most the limit, from a client below its rate.
  pub record Signed : Type 0 where
    pub whole : r.body.intact ≡ true
    pub fits : over_limit r.body r.body.limit ≡ false
    pub signed : sdk.construct_event r.body.content (r.header "Stripe-Signature") ≡ some e
    pub below_rate : ltb webhook_bucket 120 ≡ true

  -- What the request leads to, by the status of the order before it.
  pub record Settles (after : Response × World) : Type 0 where
    pub response :
        after.0
        ≡ counting
            (Count.webhook_events
              (parse_webhook_event_type libs.codec (webhook_service sdk) r.body.content)
              (payment_label o.status))
            (payment_response wr o.status)
    pub order_left :
        find_row (has_session s.id) after.1.tables.orders
        ≡ some (payment_order o.status (payment_intent_id sdk s) w.clock o)
    pub event_left : EventIs e.id (payment_event o.status) after.1.tables

  abbrev counted_world : List Bucket → World
  counted_world rows = record (quietly w) { tables = record w.tables { buckets = rows } }

  still_Ready : (rows : List Bucket) → Ready sdk e w → Ready sdk e (counted_world rows)
  still_Ready rows (ready_new absent fresh marshals) = ready_new absent fresh marshals
  still_Ready rows (ready_failed row found failed) = ready_failed row found failed
  still_Ready rows (ready_stale row t found processing started late) =
      ready_stale row t found processing started late

  settles :
      (rows : List Bucket) (given : Signed)
      → LeavesOrder e s
          (payment_answer o.status)
          (payment_order o.status (payment_intent_id sdk s) w.clock o)
          (payment_event o.status)
          (handle_event sdk e (counted_world rows))
      → Settles (stripe_webhook libs.codec (webhook_service sdk) wr r (counted_world rows))
  unfolding stripe_webhook with_body read_all serve answer handle handle_verified
  settles rows given leaves =
      rw (given.fits, given.whole, given.signed)
        (record {
          response =
              ap
                (λ x.
                  counting
                    (record_webhook_metric
                      (parse_webhook_event_type libs.codec (webhook_service sdk) r.body.content) x)
                    (write_webhook_outcome wr x))
                leaves.answer
              ∙ responds wr
                  (parse_webhook_event_type libs.codec (webhook_service sdk) r.body.content)
                  o.status;
          order_left = leaves.order_left;
          event_left = leaves.event_left;
        })

  -- In a store that the program has filled, an undisturbed POST of a signed and verified report of a payment,
  -- whole and within the body's limit, from a client below its rate, of an event that is new, failed or
  -- stale: a pending or processing order becomes paid and the answer is 200; a paid or refunded order
  -- stays as it is and the answer is 200; for a failed, expired or canceled order nothing of the order
  -- changes and the answer is 500.
  pub webhooks_stripe-Settles :
      Sound w.tables
      → Signed
      → Ready sdk e w
      → Payment sdk e w s o
      → Settles (
          endpoint libs
            (router_deps vault host canceled sdk config)
            Endpoint.webhooks_stripe
            wr
            r
            (quietly w))
  unfolding endpoint rate_limit limiter router_deps rate_limit_by_ip_postgres let_through
  webhooks_stripe-Settles sound given ready p =
      let room : ltb webhook_bucket max_int ≡ true = ground (arith, given.below_rate) in
      let (rows, admitted) =
        admitted_with libs.net (quota "webhooks" 120) r.remote_addr w room given.below_rate in
      let leaves =
        payment_lem sdk e (counted_world rows) s o (still_Ready rows ready)
          (record {
            reports = p.reports;
            parsed = p.parsed;
            for_order = p.for_order;
            amounts = p.amounts;
          })
          sound.orders_keyed in
      rw admitted (settles rows given leaves)
