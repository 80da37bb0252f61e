-- ===== src/Http/Handlers/Webhooks.antt =====
-- backend/internal/handler/webhooks.go and webhook_response.go.
use stripe_payment_integrati.Prelude.{String, ◌==◌, true, Option, none, some, if◌then◌else◌}
use stripe_payment_integrati.World.{pure}
use stripe_payment_integrati.Webhook.{WebhookOutcome}
use stripe_payment_integrati.Http.{Writer, Response, Handler, Payload, Count}
use stripe_payment_integrati.Http.Api.{write_json, write_error, counting}
use stripe_payment_integrati.Http.Handlers.{Codec, WebhookProcessor, with_body, serve, read_all}

abbrev pub type_or_unknown : Option String → String
type_or_unknown none = "unknown"
type_or_unknown (some t) = if t == "" then "unknown" else t

unfoldable pub webhook_outcome_label : WebhookOutcome → String
webhook_outcome_label WebhookOutcome.acknowledged = "acknowledged"
webhook_outcome_label WebhookOutcome.invalid_signature = "invalid_signature"
webhook_outcome_label WebhookOutcome.retry_later = "retry_later"
webhook_outcome_label WebhookOutcome.processing_failed = "processing_failed"

unfoldable pub record_webhook_metric : String → WebhookOutcome → Count
record_webhook_metric event_type outcome =
    Count.webhook_events event_type (webhook_outcome_label outcome)

unfoldable pub write_webhook_outcome : Writer → WebhookOutcome → Response
write_webhook_outcome w WebhookOutcome.invalid_signature =
    write_error w 400 "INVALID_SIGNATURE" "invalid stripe webhook signature"
write_webhook_outcome w WebhookOutcome.acknowledged = write_json w 200 (Payload.received true)
write_webhook_outcome w WebhookOutcome.retry_later =
    write_error w 503 "WEBHOOK_RETRY" "webhook processing deferred"
write_webhook_outcome w WebhookOutcome.processing_failed =
    write_error w 500 "WEBHOOK_PROCESSING_FAILED" "webhook processing failed"

module _ (codec : Codec) (service : WebhookProcessor) where
  unfoldable pub parse_webhook_event_type : String → String
  parse_webhook_event_type body = type_or_unknown (codec.event_type body)

  unfoldable pub stripe_webhook : Handler
  stripe_webhook w r =
      with_body "failed to read body" (read_all r.body)
        (λ body w r. serve w (service.handle body (r.header "Stripe-Signature")) λ outcome. pure (
          counting (record_webhook_metric (parse_webhook_event_type body) outcome)
            (write_webhook_outcome w outcome)))
        w r
