-- ===== src/Fakes/Refinement.antt =====
-- backend/internal/testutil/fake_webhook_store.go against backend/internal/db/webhooks.go, over any calls on
-- events, and where the two part.
use stripe_payment_integrati.Db.EventLaws.{complete-refused, complete-idle, complete-steps, updated}
use mathlib.Core.Option.{Option, none, some}
use stripe_payment_integrati.Domain.{is_processing, WebhookStatus}
use stripe_payment_integrati.Db.Table.{
  Keyed, affected, any_row, find_row, affected-fresh, update_rows, affected-zero, update_rows-none,
  affected-none,
}
use stripe_payment_integrati.Db.Webhooks.{
  can_claim, in_processing, WebhookCompletion, order_effect, is_event, same_event, ignored_at,
  processed_for,
}
use stripe_payment_integrati.Fakes.Agreement.{
  Alike, look-Alike, claim-Alike, fail-Alike, insert-Alike, ignore-Alike, complete-Alike,
}
use stripe_payment_integrati.Fakes.Calls.{
  Call, accepts, Agrees, on_fake, on_tables, refuses, shown, unassigned, assigned,
}
use stripe_payment_integrati.Db.{Result, Tables, ok, WebhookEvent, Error, err}
use stripe_payment_integrati.Fakes.WebhookStore.{FakeWebhookStore, ignored_event, completed_event}
use mathlib.Core.Option
use stripe_payment_integrati.Db.Webhooks
use stripe_payment_integrati.Fakes.WebhookStore
use stripe_payment_integrati.Prelude.{
  ◌≡◌, refl, ◌&&◌, [], ◌∷◌, ◌⊎◌, ◌∙◌, ℕ, String, List, Bool, Bool-cases, Option-cases, inl, true,
  inr, Option, none, some, eq_refl, ap, coalesce,
}

-- Where the store of the tests and the tables part at a call.
pub data Parts (now : ℕ) (f : FakeWebhookStore) (db : Tables) (call : Call) : Type 0 where
  -- the tables refuse what the store takes
  refused :
      accepts (on_fake call now f).0 ≡ true
      → refuses (on_tables call now db).0 ≡ true
      → Parts now f db call
  -- a completion without an order, of an event that has one: the store forgets it
  forgets_order :
      {c : WebhookCompletion} {id : String}
      → call ≡ Call.complete c
      → c.order_id ≡ none
      → Option.map shown ((on_fake call now f).1.events c.stripe_event_id)
        ≡ some (WebhookStatus.processed, none)
      → Option.map shown (find_row (is_event c.stripe_event_id) (on_tables call now db).1.events)
        ≡ some (WebhookStatus.processed, some id)
      → Parts now f db call

abbrev Compared : ℕ → FakeWebhookStore → Tables → Call → Type 0
Compared now f db call = Alike (on_fake call now f) (on_tables call now db) ⊎ Parts now f db call

Result-cases : (r : Result (Unit {0})) → (r ≡ ok tt) ⊎ ((x : Error) × (r ≡ err x))
Result-cases (ok u) = inl refl
Result-cases (err x) = inr (x, refl)

-- No row under the key passes the test, where none is there or the one there does not.
idle :
    (k : String) (q : WebhookEvent → Bool) (rows : List WebhookEvent)
    → Keyed (λ (e : WebhookEvent). e.stripe_event_id) rows
    → (affected (λ e. is_event k e && q e) rows ≡ 0)
      ⊎ ((e : WebhookEvent) × (find_row (is_event k) rows ≡ some e) × (q e ≡ true))
idle k q rows keyed = elim (Option-cases (find_row (is_event k) rows)) [
  | inl missing ↦ inl (affected-fresh (λ e. e.stripe_event_id) k q rows missing)
  | inr (e, found) ↦ elim (Bool-cases (q e)) [
    | inl passes ↦ inr (e, found, passes)
    | inr fails ↦ inl (affected-zero (λ e. e.stripe_event_id) k q rows e keyed found fails)
  ]
]

module _ (now : ℕ) (f : FakeWebhookStore) (db : Tables) (a : Agrees f db) where
  compare_insert : (e : WebhookEvent) → Compared now f db (Call.insert e)
  unfolding WebhookStore.insert_webhook_event Webhooks.insert_webhook_event
  compare_insert e = elim (Bool-cases (any_row (same_event e) db.events)) [
    | inl clash ↦ inr (refused refl (rw clash refl))
    | inr fresh ↦ inl (insert-Alike now f db a e fresh)
  ]

  compare_claim : (k : String) → Compared now f db (Call.claim k)
  unfolding WebhookStore.claim_webhook_event Webhooks.claim_webhook_event
  compare_claim k = elim (idle k (can_claim now) db.events a.keyed) [
    | inl lost ↦ inr (refused (rw a.unscripted.claims refl) (rw lost refl))
    | inr (e, found, may) ↦ inl (claim-Alike now f db a k e found may)
  ]

  compare_fail : (k : String) → Compared now f db (Call.fail k)
  unfolding WebhookStore.fail_webhook_event Webhooks.fail_webhook_event
  compare_fail k = elim (idle k (λ e. is_processing e.processing_status) db.events a.keyed) [
    | inl over ↦ inr (refused refl (rw over refl))
    | inr (e, found, busy) ↦ inl (fail-Alike now f db a k e found busy)
  ]

  compare_ignore : (k : String) → Compared now f db (Call.ignore k)
  unfolding WebhookStore.mark_webhook_ignored Webhooks.mark_webhook_ignored
  compare_ignore k = elim (Option-cases (find_row (is_event k) db.events)) [
    | inr (e, found) ↦ inl (ignore-Alike now f db a k e found)
    | inl missing ↦
        let same : update_rows (is_event k) (ignored_at now) db.events ≡ db.events =
          update_rows-none (is_event k) (ignored_at now) db.events
            (affected-none (is_event k) db.events missing) in
        inl (
          refl,
          rw same (record {
            unscripted = a.unscripted;
            shows = unassigned k ignored_event f.events db.events missing a.shows;
            keyed = a.keyed;
          }),
        )
  ]

  takes : (c : WebhookCompletion) → accepts (on_fake (Call.complete c) now f).0 ≡ true
  unfolding WebhookStore.complete_webhook_processing
  takes c = rw (a.unscripted.completes, a.unscripted.updates) refl

  forgotten :
      (c : WebhookCompletion) (e : WebhookEvent)
      → c.order_id ≡ none
      → find_row (is_event c.stripe_event_id) db.events ≡ some e
      → Option.map shown ((on_fake (Call.complete c) now f).1.events c.stripe_event_id)
        ≡ some (WebhookStatus.processed, none)
  unfolding WebhookStore.complete_webhook_processing
  forgotten c e h found =
      rw (a.unscripted.completes, a.unscripted.updates, eq_refl c.stripe_event_id)
        (assigned (completed_event c.order_id) (f.events c.stripe_event_id) (shown e)
          (WebhookStatus.processed, none) (λ b same. ap (λ o. (WebhookStatus.processed, o)) h)
          (a.shows c.stripe_event_id ∙ ap (Option.map shown) found))

  kept :
      (c : WebhookCompletion) (e : WebhookEvent) (id : String)
      → c.order_id ≡ none
      → e.order_id ≡ some id
      → find_row (is_event c.stripe_event_id) db.events ≡ some e
      → is_processing e.processing_status ≡ true
      → (order_effect c.refund_only c.order_id c.new_status c now db.orders).0 ≡ ok tt
      → Option.map shown
          (find_row (is_event c.stripe_event_id) (on_tables (Call.complete c) now db).1.events)
        ≡ some (WebhookStatus.processed, some id)
  kept c e id h k found busy effect = rw (complete-steps c now db e found busy effect) (
      ap (Option.map shown) (
        updated c.stripe_event_id db.events e found (λ b. is_processing b.processing_status)
          (processed_for c.order_id now) (λ b. refl) busy)
      ∙ ap (λ o. some (WebhookStatus.processed, o)) (ap (λ q. coalesce q e.order_id) h ∙ k))

  compare_named :
      (c : WebhookCompletion) (e : WebhookEvent) (named was : Option String)
      → c.order_id ≡ named
      → e.order_id ≡ was
      → find_row (is_event c.stripe_event_id) db.events ≡ some e
      → is_processing e.processing_status ≡ true
      → (order_effect c.refund_only c.order_id c.new_status c now db.orders).0 ≡ ok tt
      → Compared now f db (Call.complete c)
  compare_named c e (some id) was h k found busy effect =
      inl (complete-Alike now f db a c e found busy effect (rw h refl))
  compare_named c e none none h k found busy effect =
      inl (complete-Alike now f db a c e found busy effect (rw (h, k) refl))
  compare_named c e none (some id) h k found busy effect =
      inr (forgets_order refl h (forgotten c e h found) (kept c e id h k found busy effect))

  compare_complete : (c : WebhookCompletion) → Compared now f db (Call.complete c)
  compare_complete c =
      elim (Result-cases (order_effect c.refund_only c.order_id c.new_status c now db.orders).0) [
        | inr (x, bad) ↦ inr (refused (takes c) (rw (complete-refused c now db x bad) refl))
        | inl good ↦
            elim (idle c.stripe_event_id (λ e. is_processing e.processing_status) db.events
              a.keyed) [
                | inl over ↦ inr (refused (takes c) (rw (complete-idle c now db over good) refl))
                | inr (e, found, busy) ↦
                    compare_named c e c.order_id e.order_id refl refl found busy good
              ]
      ]

  compare_call : (call : Call) → Compared now f db call
  compare_call (Call.look k) = inl (look-Alike now f db a k)
  compare_call (Call.insert e) = compare_insert e
  compare_call (Call.claim k) = compare_claim k
  compare_call (Call.fail k) = compare_fail k
  compare_call (Call.ignore k) = compare_ignore k
  compare_call (Call.complete c) = compare_complete c

-- The calls of a test, each with its time.
abbrev pub Calls : Type 0
Calls = List (ℕ × Call)

-- The two answer alike and agree after each call, to the end or until they part.
pub data Follows : Calls → FakeWebhookStore → Tables → Type 0 where
  ended : {f : FakeWebhookStore} {db : Tables} → Agrees f db → Follows [] f db
  alike :
      {now : ℕ} {call : Call} {calls : Calls} {f : FakeWebhookStore} {db : Tables}
      → Alike (on_fake call now f) (on_tables call now db)
      → Follows calls (on_fake call now f).1 (on_tables call now db).1
      → Follows ((now, call) ∷ calls) f db
  parted :
      {now : ℕ} {call : Call} {calls : Calls} {f : FakeWebhookStore} {db : Tables}
      → Parts now f db call
      → Follows ((now, call) ∷ calls) f db

-- From where the store of the tests, without scripted errors, and the tables show the same status and order
-- for every event, any calls on events are answered alike by both and leave both showing the same, to
-- the end or up to the first call of two kinds: one that the tables refuse and the store takes, or a
-- completion without an order of an event that has one, after which the store shows none.
pub calls-Follows :
    (calls : Calls) (f : FakeWebhookStore) (db : Tables) → Agrees f db → Follows calls f db
calls-Follows [] f db a = ended a
calls-Follows ((now, call) ∷ calls) f db a = elim (compare_call now f db a call) [
  | inl same ↦
      alike same (calls-Follows calls (on_fake call now f).1 (on_tables call now db).1 same.1)
  | inr parts ↦ parted parts
]
