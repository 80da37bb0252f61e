-- ===== src/Http/Handlers/Catalog.antt =====
-- backend/internal/handler/products.go, health.go and metrics.go.
use stripe_payment_integrati.Prelude.{String, map, ◌∷◌, []}
use stripe_payment_integrati.Db.{Result, ok, err}
use stripe_payment_integrati.World.{pure, bind}
use stripe_payment_integrati.Http.{Writer, Response, Handler, Payload, Content}
use stripe_payment_integrati.Http.Api.{write_json, new_product_response}
use stripe_payment_integrati.Http.Handlers.{ProductCatalog, HealthStore, serve}

unfoldable pub list_catalog : ProductCatalog → Handler
list_catalog service w r =
    serve w service.list_products
      λ rows. pure (write_json w 200 (Payload.products (map new_product_response rows)))

unfoldable pub live : Handler
live w r = pure (write_json w 200 (Payload.words (("status", "ok") ∷ [])))

-- A failed ping is answered with data, not with an error.
unfoldable pub readiness : Writer → Result (Unit {0}) → Response
readiness w (ok _) = write_json w 200 (Payload.words (("status", "ok") ∷ ("db", "connected") ∷ []))
readiness w (err e) =
    write_json w 503 (Payload.words (("status", "unavailable") ∷ ("db", "disconnected") ∷ []))

unfoldable pub ready : HealthStore → Handler
unfolding readiness
ready store w r = bind store.ping λ res. pure (readiness w res)

-- `exposition` is what promhttp writes.
unfoldable pub metrics : String → Handler
metrics exposition w r = pure (record {
  status = 200;
  headers = w.headers;
  cookies = w.cookies;
  content = Content.text exposition;
  counts = [];
})
