-- ===== src/Tests.antt =====
-- Concrete stores and events, at which the theorems are applied and the definitions evaluated.
mod Webhooks
mod Checkouts
mod Openings
mod Accounts
mod Claims
mod Servers
mod Payments
mod Recovery
mod Fakes
use stripe_payment_integrati.Checkout.{Host, CreateCheckoutInput}
use stripe_payment_integrati.World.{Moment, World}
use stripe_payment_integrati.Prelude.Int.{pos}
use stripe_payment_integrati.Db.{Order, Tables, EventType, Product, ok}
use stripe_payment_integrati.Domain.{OrderStatus, UiMode}
use stripe_payment_integrati.Stripe.{
  CheckoutSession, Charge, Event, Sdk, SessionStatus, PaymentStatus,
}
use stripe_payment_integrati.Prelude.{
  ◌≡◌, refl, true, false, none, some, ◌<◌, ◌+◌, suc, ap, ◌∷◌, [], ℕ, if◌then◌else◌, Option, List,
  leb, ◌==◌, String, ◌&&◌, ◌-◌,
}

-- lower-case ASCII letters fold to upper-case ones
abbrev pub ascii_fold : ℕ → ℕ
ascii_fold c = if leb 97 c && leb c 122 then c - 32 else c

abbrev pub paid_session : CheckoutSession
paid_session = record {
  id = "cs_1";
  status = SessionStatus.complete;
  payment_status = PaymentStatus.paid;
  payment_intent = some "pi_1";
  amount_total = pos 4200;
  currency = "USD";
  url = "";
  client_secret = "";
}

abbrev pub refunded_charge : Charge
refunded_charge = record {
  id = "ch_1";
  refunded = true;
  payment_intent = some "pi_1";
  amount = pos 4200;
  currency = "usd";
}

abbrev pub completed_event : Event
completed_event = record { id = "evt_1"; event_type = EventType.session_completed; raw = "{}" }

abbrev pub charge_event : Event
charge_event = record { id = "evt_2"; event_type = EventType.charge_refunded; raw = "{}" }

abbrev pub customer_event : Event
customer_event = record {
  id = "evt_3";
  event_type = EventType.other "customer.created";
  raw = "{}";
}

abbrev pub test_sdk : Sdk
test_sdk = record {
  construct_event = λ body signature. if signature == "good" then some completed_event else none;
  can_marshal = λ e. true;
  parse_session = λ raw. some paid_session;
  parse_charge = λ raw. some refunded_charge;
  case_fold = ascii_fold;
}

abbrev pub order_in : OrderStatus → Option String → Order
order_in s intent = record {
  id = "order_1";
  order_number = "ORD-1";
  idempotency_key = none;
  status = s;
  total_amount_cents = pos 4200;
  currency = "usd";
  customer_id = none;
  customer_email = none;
  session_id = some "cs_1";
  payment_intent_id = intent;
  checkout_url = none;
  client_secret = none;
  ui_mode = UiMode.hosted;
  success_url = none;
  cancel_url = none;
  return_url = none;
  metadata = [];
  paid_at = none;
  created_at = 10;
  updated_at = 10;
  access_token_hash = none;
}

abbrev pub store_of : Order → Tables
store_of o = record {
  products = [];
  orders = o ∷ [];
  items = [];
  events = [];
  customers = [];
  sessions = [];
  reset_tokens = [];
  verification_tokens = [];
  buckets = [];
}

abbrev pub world_of : Tables → List Moment → World
world_of db schedule = record {
  tables = db;
  clock = 100;
  schedule = schedule;
  ids = λ n. "id";
  entropy = λ n. some "token";
  drawn = 0;
  expired = [];
}

abbrev pub shop : Host
shop = record {
  digest = λ s. "digest";
  body_digest = λ body. body.customer_email;
  parses_address = λ s. true;
  is_xid = λ s. true;
  format_date = λ t. "20250101";
  to_upper = λ s. s;
  create_session = λ p id. ok paid_session;
  expire_session = λ s. ok tt;
}

abbrev pub lamp : Product
lamp = record {
  id = "lamp";
  name = "Lamp";
  description = none;
  unit_amount_cents = pos 2100;
  currency = "usd";
  active = true;
}

abbrev pub request : CreateCheckoutInput
request = record {
  ui_mode = UiMode.hosted;
  items = record { product_id = "lamp"; quantity = pos 2 } ∷ [];
  customer_email = "a@b.c";
  metadata = ("gift", "yes") ∷ [];
}
