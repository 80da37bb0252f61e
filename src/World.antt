-- ===== src/World.antt =====
-- How a service runs against the store: every statement meets a moment of the schedule, in which
-- time passes, other processes change the tables, and the connection may fail.
pub mod Keeps
pub mod Scan
pub mod Ensures
pub mod Returns
pub mod Yields
use stripe_payment_integrati.Prelude.{ℕ, suc, ◌+◌, String, Option, none, some, List, [], ◌∷◌}
use stripe_payment_integrati.Db.{Tables, Error, Result, ok, err, unavailable, Statement}

-- What may happen to a statement: it runs; it is refused and does nothing; it runs and its reply is
-- lost, so that the service sees an error although the tables have changed.
pub data Fault : Type 0 where
  up refused reply_lost : Fault

pub record Moment : Type 0 where
  pub elapsed : ℕ
  pub others : ℕ → Tables → Tables
  pub fault : Fault

-- `ids` are the answers of xid.New, `entropy` those of crypto/rand as encoded tokens. `expired` lists
-- the sessions that Stripe was asked to expire, the last one first.
pub record World : Type 0 where
  pub tables : Tables
  pub clock : ℕ
  pub schedule : List Moment
  pub ids : ℕ → String
  pub entropy : ℕ → Option String
  pub drawn : ℕ
  pub expired : List String

abbrev pub Run {ℓ} : Type ℓ → Type ℓ
Run A = World → A × World

abbrev pub Try : Type 0 → Type 0
Try A = Run (Result A)

abbrev pub pure {ℓ} : {A : Type ℓ} → A → Run A
pure a w = (a, w)

abbrev pub bind {ℓ κ} : {A : Type ℓ} {B : Type κ} → Run A → (A → Run B) → Run B
bind m f w = let (a, w') = m w in f a w'

-- after an error the rest is left out
abbrev pub continue : {A B : Type 0} → (A → Try B) → Result A → Try B
continue f (ok a) = f a
continue f (err e) = pure (err e)

abbrev pub try_bind : {A B : Type 0} → Try A → (A → Try B) → Try B
try_bind m f = bind m (continue f)

abbrev pub perform : {A : Type 0} → Fault → Statement A → Statement A
perform Fault.up s now db = s now db
perform Fault.refused s now db = (err unavailable, db)
perform Fault.reply_lost s now db = (err unavailable, (s now db).1)

module _ {A : Type 0} where
  unfoldable pub act : Moment → List Moment → Statement A → Try A
  act m rest s w =
      let now = w.clock + m.elapsed in
      let (r, db) = perform m.fault s now (m.others now w.tables) in
      (r, record w { tables = db; clock = now; schedule = rest })

  -- After the schedule ends nothing interferes and nothing fails.
  abbrev turn : List Moment → Statement A → Try A
  turn [] s w = let (r, db) = s w.clock w.tables in (r, record w { tables = db; schedule = [] })
  turn (m ∷ rest) s w = act m rest s w

  unfoldable pub call : Statement A → Try A
  unfolding act
  call s w = turn w.schedule s w

unfoldable pub new_id : Run String
new_id w = (w.ids w.drawn, record w { drawn = suc w.drawn })

abbrev pub read_clock : Run ℕ
read_clock w = (w.clock, w)

unfoldable pub draw_token : Run (Option String)
draw_token w = (w.entropy w.drawn, record w { drawn = suc w.drawn })

-- No interference and no failure from here on.
abbrev pub quietly : World → World
quietly w = record w { schedule = [] }

abbrev pub with_tables : World → Tables → World
with_tables w db = record w { tables = db; schedule = [] }
