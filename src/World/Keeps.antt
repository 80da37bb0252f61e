-- ===== src/World/Keeps.antt =====
-- Rely and guarantee: where every other process moves the tables along `R`, so does a program whose
-- statements all do.
use stripe_payment_integrati.Prelude.{
  ℕ, ◌+◌, List, [], ◌∷◌, Bool, true, false, if◌then◌else◌, ◌≡◌, refl,
}
use stripe_payment_integrati.Db.{Tables, Result, ok, err, Statement}
use stripe_payment_integrati.World.{
  Fault, Moment, World, Run, Try, pure, bind, continue, perform, act, turn, call, new_id,
  read_clock, draw_token, try_bind,
}

-- A relation between the tables before and after.
pub record Preorder (R : Tables → Tables → Type 0) : Type 0 where
  pub refl_at : (db : Tables) → R db db
  pub trans : {a b c : Tables} → R a b → R b c → R a c

abbrev pub Obeys : {A : Type 0} → (Tables → Tables → Type 0) → Statement A → Type 0
Obeys R s = (now : ℕ) (db : Tables) → R db (s now db).1

abbrev pub Fair : (Tables → Tables → Type 0) → List Moment → Type 0
Fair R [] = Unit
Fair R (m ∷ rest) = ((now : ℕ) (db : Tables) → R db (m.others now db)) × Fair R rest

pub record Keeps {ℓ} (R : Tables → Tables → Type 0) {A : Type ℓ} (m : Run A) : Type ℓ where
  pub at : (w : World) → Fair R w.schedule → R w.tables (m w).1.tables × Fair R (m w).1.schedule

module _ {R : Tables → Tables → Type 0} (order : Preorder R) where
  perform-Obeys : {A : Type 0} (f : Fault) (s : Statement A) → Obeys R s → Obeys R (perform f s)
  perform-Obeys Fault.up s h now db = h now db
  perform-Obeys Fault.refused s h now db = order.refl_at db
  perform-Obeys Fault.reply_lost s h now db = h now db

  pub Keeps-pure {ℓ} : {A : Type ℓ} (a : A) → Keeps R (pure a)
  Keeps-pure a = record { at = λ w fair. (order.refl_at w.tables, fair) }

  pub Keeps-bind {ℓ κ} :
      {A : Type ℓ} {B : Type κ} (m : Run A) (f : A → Run B)
      → Keeps R m
      → ((a : A) → Keeps R (f a))
      → Keeps R (bind m f)
  Keeps-bind m f km kf = record {
    at = λ w fair.
        let first = km.at w fair in
        let second = (kf (m w).0).at (m w).1 first.1 in (order.trans first.0 second.0, second.1);
  }

  turn-keeps :
      {A : Type 0} (l : List Moment) (s : Statement A) (w : World)
      → Obeys R s
      → Fair R l
      → R w.tables (turn l s w).1.tables × Fair R (turn l s w).1.schedule
  unfolding act
  turn-keeps [] s w h fair = (h w.clock w.tables, tt)
  turn-keeps (m ∷ rest) s w h (others, fair) =
      let t = w.clock + m.elapsed in
      (order.trans (others t w.tables) (perform-Obeys m.fault s h t (m.others t w.tables)), fair)

  pub Keeps-call : {A : Type 0} (s : Statement A) → Obeys R s → Keeps R (call s)
  unfolding call
  Keeps-call s h = record { at = λ w fair. turn-keeps w.schedule s w h fair }

  pub Keeps-continue :
      {A B : Type 0} (f : A → Try B) (r : Result A)
      → ((a : A) → r ≡ ok a → Keeps R (f a))
      → Keeps R (continue f r)
  Keeps-continue f (ok a) kf = kf a refl
  Keeps-continue f (err e) kf = Keeps-pure (err e)

  pub Keeps-new_id : Keeps R new_id
  unfolding new_id
  Keeps-new_id = record { at = λ w fair. (order.refl_at w.tables, fair) }

  pub Keeps-read_clock : Keeps R read_clock
  Keeps-read_clock = record { at = λ w fair. (order.refl_at w.tables, fair) }

  pub Keeps-draw_token : Keeps R draw_token
  unfolding draw_token
  Keeps-draw_token = record { at = λ w fair. (order.refl_at w.tables, fair) }

  pub Keeps-if {ℓ} :
      {A : Type ℓ} (b : Bool) (m n : Run A) → Keeps R m → Keeps R n → Keeps R (if b then m else n)
  Keeps-if true m n km kn = km
  Keeps-if false m n km kn = kn

  pub Keeps-try_bind :
      {A B : Type 0} (m : Try A) (f : A → Try B)
      → Keeps R m
      → ((a : A) → Keeps R (f a))
      → Keeps R (try_bind m f)
  Keeps-try_bind m f km kf = Keeps-bind m (continue f) km (λ r. Keeps-continue f r (λ a _. kf a))

  -- A statement that only reads obeys every such relation.
  pub reads-obey :
      {A : Type 0} (s : Statement A) → ((t : ℕ) (db : Tables) → (s t db).1 ≡ db) → Obeys R s
  reads-obey s same t db = rw (same t db) (order.refl_at db)

  pub Keeps-read :
      {A : Type 0} (s : Statement A) → ((t : ℕ) (db : Tables) → (s t db).1 ≡ db) → Keeps R (call s)
  Keeps-read s same = Keeps-call s (reads-obey s same)

  -- A value that is there already, and then the rest.
  pub Keeps-given :
      {A B : Type 0} (r : Result A) (f : A → Try B)
      → ((a : A) → Keeps R (f a))
      → Keeps R (try_bind (pure r) f)
  Keeps-given r f kf = Keeps-try_bind (pure r) f (Keeps-pure r) kf
