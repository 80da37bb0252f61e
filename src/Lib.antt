-- ===== src/Lib.antt =====
-- The backend of a Stripe Checkout prototype: a Go service that sells products of a catalog
-- through Stripe Checkout. A third service keeps the accounts of customers. An HTTP layer puts the
-- services behind handlers, sessions and rate limits. A client posts a basket to the order service, which stores a pending order and opens a checkout session at
-- Stripe; Stripe reports what became of the session by webhooks, which the webhook service applies
-- to the order. All services keep all their state in Postgres, through the store.
--
-- Which file models what, with paths from the repository's root:
--   Prelude       Go's int32 (Prelude/Int), the functions of package strings (Prelude/Text),
--                 Boolean tests and lists.
--   Domain        backend/internal/domain: the statuses of orders and of events, the UI modes, and
--                 WebhookOrderEffectSatisfied. Domain/Lifecycle draws the life of an order as a
--                 step relation, which the code does not write down, and characterises the test by
--                 it.
--   Db            backend/internal/db and backend/migrations: rows are records, a table is the
--                 list of its rows, and a statement is a function of the time and of all tables
--                 into a result and the tables after it. Db/Webhooks is webhooks.go, with the
--                 transaction of CompleteWebhookProcessing; Db/Orders, Db/NewOrders and
--                 Db/Products are orders.go, helpers.go and products.go. Db/Table has SELECT and
--                 UPDATE on lists. The other files of Db/ are laws of these statements.
--   World         how a service runs against the store. A program is a function on worlds; `call`
--                 runs one statement. Each call consumes a moment of the schedule, in which time
--                 passes, other processes change the tables by any function, and the connection
--                 may fail: the statement is refused, or it runs and its reply is lost.
--                 World/Keeps, Yields, Ensures and Returns are rely-guarantee rules for programs:
--                 how the tables move, what is returned, what is returned from tables with an
--                 invariant, and both together. World/Scan is scanOrder: an order is read by two
--                 statements, the second one for its items.
--   Rules         what a relation between tables must satisfy for the services to keep it, one
--                 rule for each statement that writes. The files named Keeping prove for each
--                 service, handler and endpoint that it does.
--   Stripe        the values of stripe-go that the services read, and what they take from it.
--   Completion    backend/internal/service/webhook.go, buildCompletion and the functions per type
--                 of event, and webhook_errors.go. Completion/Shape has the kinds of completion
--                 that there are.
--   Webhook       backend/internal/service/webhook.go, Handle. Webhook/Interleaving is about any
--                 interference, Webhook/Redelivery about events on record, Webhook/Exclusion about two
--                 workers, and Webhook/Answers, Payment, Lapse, Refund and Misreport about what one
--                 delivery does to the order and to its event.
--   Checkout      backend/internal/service/order.go, checkout.go, checkout_validation.go and
--                 checkout_canonical.go, and backend/internal/auth/ordertoken.go.
--                 Checkout/Validation, Canonical, Items, Access, Replay, Session and Create have
--                 the functions in the order in which CreateCheckoutSession calls them.
--   Auth          backend/internal/service/auth.go, with backend/internal/auth/password.go and
--                 sessiontoken.go. Its statements are in Db/Accounts (customers.go, sessions.go)
--                 and Db/Tokens (auth_tokens.go). Auth/Reset, Recovery, Registration and
--                 Sessions are about what it does.
--   Http          backend/internal/api, handler, middleware and server/router.go, and
--                 backend/internal/auth/cookie.go, context.go and jwt.go. A handler is a program
--                 from the writer, with the headers and cookies set so far, and the request to the
--                 response. Http/Handlers has the handlers over the interfaces of services.go,
--                 which are records of operations; Http/Middleware the middleware, each a function
--                 from handlers to handlers; Http/Router/Wiring composes them as NewRouter does.
--   Config        backend/internal/config: the environment is a function from names to texts.
--   Server        backend/cmd/server/main.go and backend/cmd/seed/main.go: the services over one
--                 store as the dependencies of the router, the job for stale orders, the catalog.
--                 Server/History is about all of it over time, Server/Payments, SignIn, Recovery,
--                 Listing and Cleanup are about single endpoints and the job.
--   Fakes         backend/internal/testutil/fake_webhook_store.go, the store in memory that the
--                 repository's own tests put in the place of the database. Fakes/Refinement
--                 compares it with the tables, call by call, and says where they part.
--   Tests         concrete stores, events and requests, and stand-ins for the libraries.
--
-- Names follow the source, in snake_case: CompleteWebhookProcessing is
-- complete_webhook_processing, and the arms of a long Go function are functions of their own,
-- which its definition calls.
--
-- Loops are recursion on their list; persistSessionWithRetry makes its three attempts by recursion
-- on the number of attempts left, which is 3 at the call. The job for stale orders, which never
-- ends, is a recursion on the number of its ticks. Nothing runs on fuel.
--
-- Parameters, since their code is not in the repository: stripe-go's verification and parsing of
-- events, its two calls for sessions, SHA-256, mail.ParseAddress, xid.FromString, time formatting,
-- upper case and the table of Unicode case folding, bcrypt, and Postgres's lower(), which are
-- fields of the records Sdk, Host and Vault; the decoding of JSON bodies, SplitHostPort and Itoa,
-- golang-jwt, chi's RealIP and search among the routes, go-chi/cors, otelhttp, httprate's count in
-- memory and the text of promhttp, which are fields of the records Codec, Net, Jwt and Libraries;
-- godotenv, which is an argument; the identifiers and the random tokens are supplies in
-- the world.
--
-- Simplifications: one clock serves the program and the database. A transaction is one step, which
-- is what a moment may interrupt; a fault rolls it back or loses its reply. Foreign keys are left
-- out. JSON metadata is the list of its entries, all of them texts; a Go map is a list in the
-- order in which a loop visits it. A header set twice keeps its last value; headers are compared
-- as the source spells them. The counter of a rate limit is an INT, which does not pass 2^31 - 1.
--
-- Not modelled: logging, tracing spans and the request metrics of Prometheus, which only observe;
-- chi's Recoverer and Timeout, since a handler neither panics nor looks at its deadline; the life of
-- the process, its signals and its pool of connections; the thin client of Stripe, whose two calls
-- are parameters; the stand-ins of backend/internal/testutil for the other stores and for Stripe; and the
-- frontend.
pub mod Prelude
pub mod Domain
pub mod Db
pub mod World
pub mod Rules
pub mod Stripe
pub mod Completion
pub mod Webhook
pub mod Checkout
pub mod Auth
pub mod Http
pub mod Config
pub mod Server
pub mod Fakes
pub mod Tests
