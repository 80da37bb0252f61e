-- ===== src/Fakes/Calls.antt =====
-- The events of FakeWebhookStore against those of the tables, over a sequence of calls.
use stripe_payment_integrati.Db.EventLaws.{updated}
use stripe_payment_integrati.Db.Table.{find_row, update_rows, Keyed}
use stripe_payment_integrati.Db.Webhooks.{
  WebhookCompletion, same_event, is_event, can_claim, order_effect,
}
use stripe_payment_integrati.Db.{WebhookEvent, Result, ok, Tables, Error, err}
use stripe_payment_integrati.Domain.{WebhookStatus}
use stripe_payment_integrati.Fakes.WebhookStore.{FakeWebhookStore, assign, put}
use mathlib.Core.Option.{Option, some, none}
use mathlib.Core.Option
use stripe_payment_integrati.Db.Webhooks
use stripe_payment_integrati.Fakes.WebhookStore
use stripe_payment_integrati.Prelude.{
  not, [], ◌∷◌, ◌∙◌, ◌≡◌, refl, ◌&&◌, arith, ◌==◌, String, ℕ, Option, Bool, some, true, ap, List,
  false, none, Bool-cases, ◌∷◌, inl, eq_iff, inr, subst, sym, ◌∙◌, eq_refl,
}

abbrev pub Shown : Type 0
Shown = WebhookStatus × Option String

abbrev pub shown : WebhookEvent → Shown
shown e = (e.processing_status, e.order_id)

pub data Call : Type 0 where
  look : String → Call
  insert : WebhookEvent → Call
  claim fail ignore : String → Call
  complete : WebhookCompletion → Call

pub data Answer : Type 0 where
  event : Option Shown → Answer
  claimed : Bool → Answer
  done : Answer
  refused : Error → Answer

abbrev pub answer_of : {A : Type 0} → (A → Answer) → Result A → Answer
answer_of good (ok a) = good a
answer_of good (err e) = Answer.refused e

abbrev answered : {A B : Type 0} → (A → Answer) → Result A × B → Answer × B
answered good (r, b) = (answer_of good r, b)

abbrev pub on_fake : Call → ℕ → FakeWebhookStore → Answer × FakeWebhookStore
on_fake (Call.look k) now f =
    answered (λ e. Answer.event (Option.map shown e)) (WebhookStore.get_webhook_event k f)
on_fake (Call.insert e) now f = answered (λ _. Answer.done) (WebhookStore.insert_webhook_event e f)
on_fake (Call.claim k) now f = answered Answer.claimed (WebhookStore.claim_webhook_event now k f)
on_fake (Call.fail k) now f = answered (λ _. Answer.done) (WebhookStore.fail_webhook_event k f)
on_fake (Call.ignore k) now f = answered (λ _. Answer.done) (WebhookStore.mark_webhook_ignored k f)
on_fake (Call.complete c) now f =
    answered (λ _. Answer.done) (WebhookStore.complete_webhook_processing c f)

abbrev pub on_tables : Call → ℕ → Tables → Answer × Tables
on_tables (Call.look k) now db =
    answered (λ e. Answer.event (Option.map shown e)) (Webhooks.get_webhook_event k now db)
on_tables (Call.insert e) now db =
    answered (λ _. Answer.done) (Webhooks.insert_webhook_event e now db)
on_tables (Call.claim k) now db = answered Answer.claimed (Webhooks.claim_webhook_event k now db)
on_tables (Call.fail k) now db = answered (λ _. Answer.done) (Webhooks.fail_webhook_event k now db)
on_tables (Call.ignore k) now db =
    answered (λ _. Answer.done) (Webhooks.mark_webhook_ignored k now db)
on_tables (Call.complete c) now db =
    answered (λ _. Answer.done) (Webhooks.complete_webhook_processing c now db)

-- The store of the tests takes the call; the tables turn it down.
abbrev pub accepts : Answer → Bool
accepts (Answer.claimed b) = b
accepts Answer.done = true
accepts _ = false

abbrev pub refuses : Answer → Bool
refuses (Answer.claimed b) = not b
refuses (Answer.refused e) = true
refuses _ = false

-- No error is scripted.
pub record Unscripted (claim_ok : Bool) (look update complete : Option Error) : Type 0 where
  pub claims : claim_ok ≡ true
  pub looks : look ≡ none
  pub updates : update ≡ none
  pub completes : complete ≡ none

-- Every event shows alike in a map and in a table.
abbrev pub Shows : (String → Option WebhookEvent) → List WebhookEvent → Type 0
Shows events rows =
    (k : String) → Option.map shown (events k) ≡ Option.map shown (find_row (is_event k) rows)

pub record Agrees (f : FakeWebhookStore) (db : Tables) : Type 0 where
  pub unscripted : Unscripted f.claim_ok f.get_webhook_event_err f.update_err f.complete_err
  pub shows : Shows f.events db.events
  pub keyed : Keyed (λ (e : WebhookEvent). e.stripe_event_id) db.events

-- An assignment to what is shown as the old row shows the new one.
pub assigned :
    (g : WebhookEvent → WebhookEvent) (x : Option WebhookEvent) (old new : Shown)
    → ((e : WebhookEvent) → shown e ≡ old → shown (g e) ≡ new)
    → Option.map shown x ≡ some old
    → Option.map shown (Option.map g x) ≡ some new
assigned g none old new h e = absurd (ground arith)
assigned g (some x) old new h e = ap some (h x (ground arith))

apart :
    (k j : String) (e : WebhookEvent)
    → (j == k) ≡ false
    → is_event k e ≡ true
    → is_event j e ≡ false
apart k j e other here = elim (Bool-cases (is_event j e)) [
  | inl same ↦
      let at_j : e.stripe_event_id ≡ j = (eq_iff e.stripe_event_id j).0 same in
      absurd (ground (arith, subst (λ i. (i == k) ≡ true) at_j here))
  | inr h ↦ h
]

-- An update of the rows under a key leaves the others as they are found.
elsewhere :
    (k j : String) (r : WebhookEvent → Bool) (h : WebhookEvent → WebhookEvent)
    (rows : List WebhookEvent)
    → ((e : WebhookEvent) → (h e).stripe_event_id ≡ e.stripe_event_id)
    → (j == k) ≡ false
    → find_row (is_event j) (update_rows (λ e. is_event k e && r e) h rows)
      ≡ find_row (is_event j) rows
unfolding find_row update_rows
elsewhere k j r h [] keeps other = refl
elsewhere k j r h (e ∷ rows) keeps other = elim (Bool-cases (is_event k e)) [
  | inl here ↦
      let away : is_event j e ≡ false = apart k j e other here in
      let kept : is_event j (h e) ≡ is_event j e = ap (λ i. i == j) (keeps e) in
      rw (here) (elim (Bool-cases (r e)) [
        | inl y ↦ rw (y, kept, away) (elsewhere k j r h rows keeps other)
        | inr n ↦ rw (n, away) (elsewhere k j r h rows keeps other)
      ])
  | inr there ↦ rw there (rw (elsewhere k j r h rows keeps other) refl)
]

-- An assignment and the update of the row that it stands for.
pub agreed :
    (k : String) (g h : WebhookEvent → WebhookEvent) (r : WebhookEvent → Bool)
    (events : String → Option WebhookEvent) (rows : List WebhookEvent) (row : WebhookEvent)
    → ((e : WebhookEvent) → (h e).stripe_event_id ≡ e.stripe_event_id)
    → find_row (is_event k) rows ≡ some row
    → r row ≡ true
    → ((e : WebhookEvent) → shown e ≡ shown row → shown (g e) ≡ shown (h row))
    → Shows events rows
    → Shows (assign k g events) (update_rows (λ e. is_event k e && r e) h rows)
agreed k g h r events rows row keeps found accepts same shows j = elim (Bool-cases (j == k)) [
  | inl here ↦
      let at_k : j ≡ k = (eq_iff j k).0 here in
      let after : find_row (is_event j) (update_rows (λ e. is_event k e && r e) h rows)
          ≡ some (h row) =
        subst
          (λ i.
            find_row (is_event i) (update_rows (λ e. is_event k e && r e) h rows) ≡ some (h row))
          (sym at_k) (updated k rows row found r h keeps accepts) in
      let before : Option.map shown (events j) ≡ some (shown row) =
        shows j
        ∙ ap (λ i. Option.map shown (find_row (is_event i) rows)) at_k
        ∙ ap (Option.map shown) found in
      rw (here, after) (assigned g (events j) (shown row) (shown (h row)) same before)
  | inr there ↦ rw (there, elsewhere k j r h rows keeps there) (shows j)
]

-- A new event under its own key.
pub inserted :
    (e : WebhookEvent) (now : ℕ) (events : String → Option WebhookEvent) (rows : List WebhookEvent)
    → Shows events rows
    → Shows (put e.stripe_event_id e events) (record e { created_at = now } ∷ rows)
unfolding find_row
inserted e now events rows shows j = elim (Bool-cases (j == e.stripe_event_id)) [
  | inl here ↦
      let same : j ≡ e.stripe_event_id = (eq_iff j e.stripe_event_id).0 here in
      let there : is_event j e ≡ true =
        subst (λ i. (e.stripe_event_id == i) ≡ true) (sym same) (eq_refl e.stripe_event_id) in
      rw (here, there) refl
  | inr other ↦
      let there : is_event j e ≡ false =
        apart e.stripe_event_id j e other (eq_refl e.stripe_event_id) in
      rw (other, there) (shows j)
]

-- An assignment under a key that no row has.
pub unassigned :
    (k : String) (g : WebhookEvent → WebhookEvent) (events : String → Option WebhookEvent)
    (rows : List WebhookEvent)
    → find_row (is_event k) rows ≡ none
    → Shows events rows
    → Shows (assign k g events) rows
unassigned k g events rows missing shows j = elim (Bool-cases (j == k)) [
  | inl here ↦
      let nothing : Option.map shown (find_row (is_event j) rows) ≡ none =
        ap (λ i. Option.map shown (find_row (is_event i) rows)) ((eq_iff j k).0 here)
        ∙ ap (Option.map shown) missing in
      rw here (unseen (events j) (shows j ∙ nothing) ∙ sym nothing)
  | inr there ↦ rw there (shows j)
]
  where
    unseen :
        (x : Option WebhookEvent)
        → Option.map shown x ≡ none
        → Option.map shown (Option.map g x) ≡ none
    unseen none h = refl
    unseen (some e) h = absurd (ground arith)
