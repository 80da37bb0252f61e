-- ===== src/Rules.antt =====
-- A relation between tables that every statement of the services keeps, and the programs that then keep
-- it too.
use stripe_payment_integrati.Prelude.{ℕ, String, List}
use stripe_payment_integrati.Db.{Tables, WebhookEvent}
use stripe_payment_integrati.Db.Webhooks.{
  WebhookCompletion, insert_webhook_event, claim_webhook_event, complete_webhook_processing,
  fail_webhook_event, mark_webhook_ignored,
}
use stripe_payment_integrati.Db.Orders.{
  update_order_session, update_order_access_token_hash, clear_order_idempotency_key, cancel_order,
}
use stripe_payment_integrati.Db.NewOrders.{
  CreateOrderParams, CreateOrderItemParams, create_order_with_items,
}
use stripe_payment_integrati.Db.Accounts.{
  create_customer, mark_customer_email_verified, update_customer_password, create_user_session,
  touch_user_session, revoke_user_session, revoke_all_user_sessions,
}
use stripe_payment_integrati.Db.Tokens.{
  create_password_reset_token, consume_password_reset_token, create_email_verification_token,
  consume_email_verification_token,
}
use stripe_payment_integrati.Db.Buckets.{increment_rate_limit_bucket}
use stripe_payment_integrati.World.Keeps.{Preorder, Obeys}

-- The statements of the webhook service; a completion must satisfy `P`.
pub record WebhookRules (R : Tables → Tables → Type 0) (P : WebhookCompletion → Type 0)
    : Type 0 where
  pub order : Preorder R
  pub insert_event : (e : WebhookEvent) → Obeys R (insert_webhook_event e)
  pub claim_event : (k : String) → Obeys R (claim_webhook_event k)
  pub complete_event : (c : WebhookCompletion) → P c → Obeys R (complete_webhook_processing c)
  pub fail_event : (k : String) → Obeys R (fail_webhook_event k)
  pub ignore_event : (k : String) → Obeys R (mark_webhook_ignored k)

pub record OrderRules (R : Tables → Tables → Type 0) : Type 0 where
  pub order : Preorder R
  pub create_order :
      (p : CreateOrderParams) (items : List CreateOrderItemParams)
      → Obeys R (create_order_with_items p items)
  pub set_session :
      (id session url secret : String) → Obeys R (update_order_session id session url secret)
  pub set_token : (id hash : String) → Obeys R (update_order_access_token_hash id hash)
  pub clear_key : (id : String) → Obeys R (clear_order_idempotency_key id)
  pub cancel : (id reason : String) → Obeys R (cancel_order id reason)

pub record AccountRules (R : Tables → Tables → Type 0) : Type 0 where
  pub order : Preorder R
  pub add_customer : (id email hash : String) → Obeys R (create_customer id email hash)
  pub verify_customer : (id : String) → Obeys R (mark_customer_email_verified id)
  pub set_password : (id hash : String) → Obeys R (update_customer_password id hash)
  pub add_session :
      (id hash customer : String) (expires : ℕ)
      → Obeys R (create_user_session id hash customer expires)
  pub touch_session : (id : String) (expires : ℕ) → Obeys R (touch_user_session id expires)
  pub revoke_session : (id : String) → Obeys R (revoke_user_session id)
  pub revoke_sessions : (customer : String) → Obeys R (revoke_all_user_sessions customer)
  pub add_reset :
      (id hash customer : String) (expires : ℕ)
      → Obeys R (create_password_reset_token id hash customer expires)
  pub use_reset : (hash : String) → Obeys R (consume_password_reset_token hash)
  pub add_verification :
      (id hash customer : String) (expires : ℕ)
      → Obeys R (create_email_verification_token id hash customer expires)
  pub use_verification : (hash : String) → Obeys R (consume_email_verification_token hash)
  pub count_request : (key : String) (start : ℕ) → Obeys R (increment_rate_limit_bucket key start)
