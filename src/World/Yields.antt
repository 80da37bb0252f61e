-- ===== src/World/Yields.antt =====
-- What a program returns, from every world and under every schedule.
use stripe_payment_integrati.Prelude.{[], ◌∷◌, ◌+◌, Bool, true, false, if◌then◌else◌, ℕ, List}
use stripe_payment_integrati.Db.{Result, ok, err, Tables, Statement}
use stripe_payment_integrati.World.{
  World, Run, Try, bind, continue, try_bind, call, act, Fault, perform, Moment, turn,
}
use stripe_payment_integrati.World.Keeps.{Preorder, Keeps}

pub record Yields {ℓ} {A : Type ℓ} (Q : A → Type 0) (m : Run A) : Type ℓ where
  pub at : (w : World) → Q (m w).0

-- A postcondition of the value, where there is one.
abbrev pub OnOk : {A : Type 0} → (A → Type 0) → Result A → Type 0
OnOk Q (ok a) = Q a
OnOk Q (err e) = Unit

module _ {A : Type 0} {P Q : A → Type 0} (f : (a : A) → P a → Q a) where
  weaken : (r : Result A) → OnOk P r → OnOk Q r
  weaken (ok a) p = f a p
  weaken (err e) p = tt

  -- What follows from a postcondition is one.
  pub Yields-weaken : {m : Try A} → Yields (OnOk P) m → Yields (OnOk Q) m
  Yields-weaken {m = m} y = record { at = λ w. weaken (m w).0 (y.at w) }

module _ {A B : Type 0} {Q : B → Type 0} where
  pub Yields-continue :
      (f : A → Try B) (r : Result A)
      → ((a : A) → Yields (OnOk Q) (f a))
      → Yields (OnOk Q) (continue f r)
  Yields-continue f (ok a) h = h a
  Yields-continue f (err e) h = record { at = λ w. tt }

  pub Yields-try_bind :
      (m : Try A) (f : A → Try B)
      → ((a : A) → Yields (OnOk Q) (f a))
      → Yields (OnOk Q) (try_bind m f)
  Yields-try_bind m f h = record { at = λ w. (Yields-continue f (m w).0 h).at (m w).1 }

module _ {A : Type 0} (Q : A → Type 0) (s : Statement A)
    (answers : (t : ℕ) (db : Tables) → OnOk Q (s t db).0) where
  performed : (f : Fault) (t : ℕ) (db : Tables) → OnOk Q (perform f s t db).0
  performed Fault.up t db = answers t db
  performed Fault.refused t db = tt
  performed Fault.reply_lost t db = tt

  turned : (l : List Moment) (w : World) → OnOk Q (turn l s w).0
  unfolding act
  turned [] w = answers w.clock w.tables
  turned (m ∷ rest) w =
      performed m.fault (w.clock + m.elapsed) (m.others (w.clock + m.elapsed) w.tables)

  -- What a statement answers at every time and on all tables, a call of it does.
  pub Yields-call : Yields (OnOk Q) (call s)
  unfolding call
  Yields-call = record { at = λ w. turned w.schedule w }

module _ {A B : Type 0} (P : A → Type 0) (Q : B → Type 0) (m : Try A) (f : A → Try B)
    (rest : (a : A) → P a → Yields (OnOk Q) (f a)) where
  after : (r : Result A) → OnOk P r → (w : World) → OnOk Q (continue f r w).0
  after (ok a) p w = (rest a p).at w
  after (err e) p w = tt

  -- The rest of a program may use what the first part yields.
  pub Yields-then : Yields (OnOk P) m → Yields (OnOk Q) (try_bind m f)
  Yields-then first = record { at = λ w. after (m w).0 (first.at w) (m w).1 }

pub Yields-bind {ℓ κ} :
    {A : Type ℓ} {B : Type κ} {Q : B → Type 0} (m : Run A) (f : A → Run B)
    → ((a : A) → Yields Q (f a))
    → Yields Q (bind m f)
Yields-bind m f h = record { at = λ w. (h (m w).0).at (m w).1 }

pub Yields-if :
    {A : Type 0} {Q : A → Type 0} (b : Bool) (m n : Run A)
    → Yields Q m
    → Yields Q n
    → Yields Q (if b then m else n)
Yields-if true m n hm hn = hm
Yields-if false m n hm hn = hn

-- The rest of a program may use what the first part yields.
pub Keeps-bind-Yields {ℓ κ} :
    {R : Tables → Tables → Type 0} (order : Preorder R) {A : Type ℓ} {B : Type κ} (Q : A → Type 0)
    (m : Run A) (f : A → Run B)
    → Yields Q m
    → Keeps R m
    → ((a : A) → Q a → Keeps R (f a))
    → Keeps R (bind m f)
Keeps-bind-Yields order Q m f yields km kf = record {
  at = λ w fair.
      let first = km.at w fair in
      let second = (kf (m w).0 (yields.at w)).at (m w).1 first.1 in
      (order.trans first.0 second.0, second.1);
}
