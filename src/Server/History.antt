-- ===== src/Server/History.antt =====
-- What the processes of the repository do to a store over time.
use stripe_payment_integrati.Completion.Legality.{build_completion-Stamped}
use stripe_payment_integrati.Db.Soundness.Events.{webhook_rules}
use stripe_payment_integrati.Db.Soundness.Orders.{order_rules}
use stripe_payment_integrati.Db.Soundness.Accounts.{account_rules}
use stripe_payment_integrati.Server.Keeping.{router_deps-Keeps}
use stripe_payment_integrati.Db.Soundness.Rows.{orders-updated}
use stripe_payment_integrati.Http.Router.Keeping.{routes-Keeps}
use stripe_payment_integrati.Db.Orders.{
  cancel_stale_pending_orders, is_stale_pending, stale_canceled,
}
use stripe_payment_integrati.Server.{seed, run_stale_order_cleanup, router_deps, stale_after}
use stripe_payment_integrati.Db.Products.{upsert_product}
use stripe_payment_integrati.Http.Router.Wiring.{routes}
use stripe_payment_integrati.Prelude.{ℕ, zero, suc, refl, Bool, List, [], ◌∷◌, Bool-cases, inl, inr}
use stripe_payment_integrati.Prelude.Int.{pos, ltb_ℤ}
use stripe_payment_integrati.Db.{Product, no_rows}
use stripe_payment_integrati.Db.Table.{any_row, with_key}
use stripe_payment_integrati.Db.Soundness.{Sound, StaysSound, StaysSound-preorder}
use stripe_payment_integrati.World.{World, Run, pure, bind}
use stripe_payment_integrati.World.Keeps.{
  Keeps, Keeps-pure, Keeps-bind, Keeps-call, Keeps-try_bind, Fair, Obeys,
}
use stripe_payment_integrati.Auth.{Vault}
use stripe_payment_integrati.Checkout.{Host}
use stripe_payment_integrati.Stripe.{Sdk}
use stripe_payment_integrati.Config.{Config}
use stripe_payment_integrati.Http.{Request, fresh_writer}
use stripe_payment_integrati.Http.Router.{Libraries}

-- A request to the server, some ticks of the job, or a run of the seed command.
pub data Task : Type 0 where
  request : Request → Task
  cleanup : ℕ → Task
  seeding : List Product → Task

module _ (libs : Libraries) (vault : Vault) (host : Host) (canceled : ℕ → Bool) (sdk : Sdk)
    (config : Config) where
  perform_task : Task → Run (Unit {0})
  perform_task (request r) =
      bind (routes libs (router_deps vault host canceled sdk config) fresh_writer r) λ _. pure tt
  perform_task (cleanup n) = run_stale_order_cleanup n
  perform_task (seeding products) = bind (seed products) λ _. pure tt

  unfoldable pub perform_all : List Task → Run (Unit {0})
  unfolding perform_task
  perform_all [] = pure tt
  perform_all (t ∷ tasks) = bind (perform_task t) λ _. perform_all tasks

pub no_rows-Sound : Sound no_rows
no_rows-Sound = record {
  orders_ok = tt;
  orders_keyed = tt;
  events_keyed = tt;
  customers_keyed = tt;
  sessions_keyed = tt;
}

upsert-Sound : (p : Product) → Obeys StaysSound (upsert_product p)
unfolding upsert_product
upsert-Sound p now db = elim (Bool-cases (ltb_ℤ (pos 0) p.unit_amount_cents)) [
  | inl h ↦ elim (Bool-cases (any_row (with_key (λ q. q.id) p.id) db.products)) [
    | inl k ↦ rw (h, k) (λ s. s)
    | inr k ↦ rw (h, k) (λ s. s)
  ]
  | inr h ↦ rw h (λ s. s)
]

seed-Keeps : (products : List Product) → Keeps StaysSound (seed products)
unfolding seed
seed-Keeps [] = Keeps-pure StaysSound-preorder _
seed-Keeps (p ∷ rest) =
    Keeps-try_bind StaysSound-preorder _ _
      (Keeps-call StaysSound-preorder (upsert_product p) (upsert-Sound p)) (λ _. seed-Keeps rest)

stale-Sound : (older_than : ℕ) → Obeys StaysSound (cancel_stale_pending_orders older_than)
unfolding cancel_stale_pending_orders
stale-Sound older_than now db s =
    orders-updated db s (is_stale_pending older_than now) (stale_canceled now) (λ o. refl)
      (λ o h fine. record {
        positive = fine.positive;
        known_mode = fine.known_mode;
        unowned = fine.unowned;
        stamped = λ settled. cc;
      })

cleanup-Keeps : (n : ℕ) → Keeps StaysSound (run_stale_order_cleanup n)
unfolding run_stale_order_cleanup
cleanup-Keeps zero = Keeps-pure StaysSound-preorder tt
cleanup-Keeps (suc n) =
    Keeps-bind StaysSound-preorder _ _
      (Keeps-call StaysSound-preorder (cancel_stale_pending_orders stale_after)
        (stale-Sound stale_after))
      (λ _. cleanup-Keeps n)

module _ (libs : Libraries) (vault : Vault) (host : Host) (canceled : ℕ → Bool) (sdk : Sdk)
    (config : Config) where
  task-Keeps : (t : Task) → Keeps StaysSound (perform_task libs vault host canceled sdk config t)
  unfolding perform_task
  task-Keeps (request r) =
      Keeps-bind StaysSound-preorder _ _
        (routes-Keeps libs (router_deps vault host canceled sdk config)
          (router_deps-Keeps webhook_rules order_rules account_rules vault host canceled sdk
            (build_completion-Stamped sdk) config)
          fresh_writer r)
        (λ _. Keeps-pure StaysSound-preorder tt)
  task-Keeps (cleanup n) = cleanup-Keeps n
  task-Keeps (seeding products) =
      Keeps-bind StaysSound-preorder _ _ (seed-Keeps products)
        (λ _. Keeps-pure StaysSound-preorder tt)

  all-Keep :
      (tasks : List Task) → Keeps StaysSound (perform_all libs vault host canceled sdk config tasks)
  unfolding perform_all
  all-Keep [] = Keeps-pure StaysSound-preorder tt
  all-Keep (t ∷ tasks) = Keeps-bind StaysSound-preorder _ _ (task-Keeps t) (λ _. all-Keep tasks)

  -- Whatever requests are served, the job's ticks and seed commands between them, whatever statements
  -- fail and whatever other processes do that keep a sound store sound: a sound store stays sound. So
  -- every order has a positive amount, no customer, and, once it is paid or refunded, a time of payment;
  -- and the ids of orders and customers, the events of Stripe and the hashes of sessions are unique.
  pub perform_all-Sound :
      (tasks : List Task) (w : World)
      → Sound w.tables
      → Fair StaysSound w.schedule
      → Sound (perform_all libs vault host canceled sdk config tasks w).1.tables
  perform_all-Sound tasks w sound fair = ((all-Keep tasks).at w fair).0 sound
