-- ===== src/Http/Api.antt =====
-- backend/internal/api/response.go and dto.go; backend/internal/handler/errors.go and bodylimit.go.
use stripe_payment_integrati.Prelude.{ℕ, String, ◌==◌, Option, none, some, List, [], ◌∷◌, map}
use stripe_payment_integrati.Prelude.{if◌then◌else◌}
use stripe_payment_integrati.Db.{Order, OrderItem, Product, AppError, Error}
use stripe_payment_integrati.Http.{
  Writer, Response, Payload, ErrorBody, Content, OrderResponse, OrderItemResponse, ProductResponse,
  Count,
}

-- Header.Set
abbrev pub set_entry_of : String → String → List (String × String) → List (String × String)
set_entry_of k v [] = (k, v) ∷ []
set_entry_of k v ((j, u) ∷ l) = if j == k then (k, v) ∷ l else (j, u) ∷ set_entry_of k v l

abbrev pub set_header : String → String → Writer → Writer
set_header k v w = record w { headers = set_entry_of k v w.headers }

abbrev pub write_envelope : Writer → ℕ → Option Payload → Option ErrorBody → Response
write_envelope w status payload error = record {
  status = status;
  headers = set_entry_of "Content-Type" "application/json" w.headers;
  cookies = w.cookies;
  content = Content.json (record { payload = payload; error = error });
  counts = [];
}

abbrev pub write_json : Writer → ℕ → Payload → Response
write_json w status payload = write_envelope w status (some payload) none

abbrev pub write_error : Writer → ℕ → String → String → Response
write_error w status code message =
    write_envelope w status none (some (record { code = code; message = message }))

abbrev pub write_app_error : Writer → AppError → Response
write_app_error w e = write_error w e.status e.code e.message

abbrev pub internal_error_message : String
internal_error_message = "internal server error"

unfoldable pub write_service_error : Writer → Error → Response
write_service_error w (Error.app e) = write_app_error w e
write_service_error w _ = write_error w 500 "INTERNAL_ERROR" internal_error_message

abbrev pub write_body_too_large : Writer → Response
write_body_too_large w = write_error w 413 "VALIDATION_ERROR" "request body too large"

abbrev pub counting : Count → Response → Response
counting c r = record r { counts = c ∷ r.counts }

unfoldable pub new_product_response : Product → ProductResponse
new_product_response p = record {
  id = p.id;
  name = p.name;
  description = p.description;
  unit_amount_cents = p.unit_amount_cents;
  currency = p.currency;
}

abbrev pub new_item_response : OrderItem → OrderItemResponse
new_item_response i = record {
  product_name = i.product_name;
  quantity = i.quantity;
  line_total_cents = i.line_total_cents;
}

abbrev pub formatted : (ℕ → String) → Option ℕ → Option String
formatted format none = none
formatted format (some t) = some (format t)

-- `format` is time.Format(time.RFC3339) in UTC.
unfoldable pub new_order_response : (ℕ → String) → Order × List OrderItem → OrderResponse
new_order_response format (o, items) = record {
  id = o.id;
  order_number = o.order_number;
  status = o.status;
  total_amount_cents = o.total_amount_cents;
  currency = o.currency;
  paid_at = formatted format o.paid_at;
  items = map new_item_response items;
}
