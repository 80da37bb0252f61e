-- ===== src/World/Ensures.antt =====
-- What a program returns from tables with an invariant, among processes that keep it.
use stripe_payment_integrati.Prelude.{◌+◌, ℕ, List, [], ◌∷◌, Bool, true, false, if◌then◌else◌}
use stripe_payment_integrati.Db.{Tables, Statement}
use stripe_payment_integrati.World.{World, Run, bind, call, act, turn, perform, Fault, Moment}
use stripe_payment_integrati.World.Keeps.{Keeps, Fair}
use stripe_payment_integrati.World.Yields.{OnOk}

-- The invariant is kept.
abbrev pub Preserved : (Tables → Type 0) → Tables → Tables → Type 0
Preserved I a b = I a → I b

pub record Ensures {ℓ} (I : Tables → Type 0) {A : Type ℓ} (Q : A → Type 0) (m : Run A)
    : Type ℓ where
  pub at : (w : World) → I w.tables → Fair (Preserved I) w.schedule → Q (m w).0

module _ {I : Tables → Type 0} where
  pub Ensures-bind {ℓ κ} :
      {A : Type ℓ} {B : Type κ} {Q : B → Type 0} (m : Run A) (f : A → Run B)
      → Keeps (Preserved I) m
      → ((a : A) → Ensures I Q (f a))
      → Ensures I Q (bind m f)
  Ensures-bind m f km kf = record {
    at = λ w i fair. let first = km.at w fair in (kf (m w).0).at (m w).1 (first.0 i) first.1;
  }

  -- The rest may use what the first part ensures.
  pub Ensures-then {ℓ κ} :
      {A : Type ℓ} {B : Type κ} {P : A → Type 0} {Q : B → Type 0} (m : Run A) (f : A → Run B)
      → Keeps (Preserved I) m
      → Ensures I P m
      → ((a : A) → P a → Ensures I Q (f a))
      → Ensures I Q (bind m f)
  Ensures-then m f km first kf = record {
    at = λ w i fair.
        let kept = km.at w fair in (kf (m w).0 (first.at w i fair)).at (m w).1 (kept.0 i) kept.1;
  }

  pub Ensures-if {ℓ} :
      {A : Type ℓ} {Q : A → Type 0} (b : Bool) (m n : Run A)
      → Ensures I Q m
      → Ensures I Q n
      → Ensures I Q (if b then m else n)
  Ensures-if true m n hm hn = hm
  Ensures-if false m n hm hn = hn

  module _ {A : Type 0} (Q : A → Type 0) (s : Statement A)
      (answers : (t : ℕ) (db : Tables) → I db → OnOk Q (s t db).0) where
    performed : (f : Fault) (t : ℕ) (db : Tables) → I db → OnOk Q (perform f s t db).0
    performed Fault.up t db i = answers t db i
    performed Fault.refused t db i = tt
    performed Fault.reply_lost t db i = tt

    turned :
        (l : List Moment) (w : World) → I w.tables → Fair (Preserved I) l → OnOk Q (turn l s w).0
    unfolding act
    turned [] w i fair = answers w.clock w.tables i
    turned (m ∷ rest) w i (others, fair) =
        let t = w.clock + m.elapsed in
        performed m.fault t (m.others t w.tables) (others t w.tables i)

    pub Ensures-call : Ensures I (OnOk Q) (call s)
    unfolding call
    Ensures-call = record { at = λ w i fair. turned w.schedule w i fair }
