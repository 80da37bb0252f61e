-- ===== src/Webhook/Interleaving.antt =====
-- Handle among other processes: every order it touches moves along its life.
use stripe_payment_integrati.Completion.Legality.{build_completion-Legal}
use stripe_payment_integrati.Webhook.Keeping.{handle-Keeps}
use stripe_payment_integrati.World.Keeps.{Fair}
use stripe_payment_integrati.World.{World}
use stripe_payment_integrati.Prelude.{String}
use Prim.Native.String.{String}
use stripe_payment_integrati.Stripe.{Sdk}
use stripe_payment_integrati.Db.Guarantees.{
  Legal, complete-Obeys, claim-Obeys, fail-Obeys, ignore-Obeys, insert_event-Obeys,
}
use stripe_payment_integrati.Db.Progress.{Progress, Progress-preorder}
use stripe_payment_integrati.Rules.{WebhookRules}
use stripe_payment_integrati.Webhook.{handle}

Progress-rules : WebhookRules Progress Legal
Progress-rules = record {
  order = Progress-preorder;
  insert_event = insert_event-Obeys;
  claim_event = claim-Obeys;
  complete_event = complete-Obeys;
  fail_event = fail-Obeys;
  ignore_event = ignore-Obeys;
}

module _ (sdk : Sdk) where
  -- Whatever statements fail, before or after they took effect, and whatever other processes do
  -- between two statements, as long as they too move orders along: Handle moves every order along.
  -- So no order is deleted, its status follows the edges of its life, its amount and its currency
  -- stay, and once it is paid or refunded its payment intent and its time of payment stay.
  pub handle-Progress :
      (body signature : String) (w : World)
      → Fair Progress w.schedule
      → Progress w.tables (handle sdk body signature w).1.tables
  handle-Progress body signature w fair =
      ((handle-Keeps Progress-rules sdk (build_completion-Legal sdk) body signature).at w fair).0
