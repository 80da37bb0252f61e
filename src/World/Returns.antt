-- ===== src/World/Returns.antt =====
-- What a call returns together with how it leaves the tables, among processes that move them along a
-- relation.
use stripe_payment_integrati.Prelude.{◌+◌, ℕ, List, [], ◌∷◌}
use stripe_payment_integrati.Db.{Tables, Result, err, unavailable, Statement}
use stripe_payment_integrati.World.{World, call, act, turn, perform, Fault, Moment}
use stripe_payment_integrati.World.Keeps.{Preorder, Fair}

-- `Post` relates the tables before, the answer, and the tables after.
pub record Returns (R : Tables → Tables → Type 0) {A : Type 0}
    (Post : Tables → Result A → Tables → Type 0) (s : Statement A) : Type 0 where
  pub runs : (t : ℕ) (a b : Tables) → R a b → Post a (s t b).0 (s t b).1
  pub refuses : (a b : Tables) → R a b → Post a (err unavailable) b
  pub loses : (t : ℕ) (a b : Tables) → R a b → Post a (err unavailable) (s t b).1

module _ {R : Tables → Tables → Type 0} (order : Preorder R) {A : Type 0}
    (Post : Tables → Result A → Tables → Type 0) (s : Statement A) (h : Returns R Post s) where
  performed :
      (f : Fault) (t : ℕ) (a b : Tables) → R a b → Post a (perform f s t b).0 (perform f s t b).1
  performed Fault.up t a b r = h.runs t a b r
  performed Fault.refused t a b r = h.refuses a b r
  performed Fault.reply_lost t a b r = h.loses t a b r

  turned :
      (l : List Moment) (w : World) → Fair R l → Post w.tables (turn l s w).0 (turn l s w).1.tables
  unfolding act
  turned [] w fair = h.runs w.clock w.tables w.tables (order.refl_at w.tables)
  turned (m ∷ rest) w (others, fair) =
      let t = w.clock + m.elapsed in
      performed m.fault t w.tables (m.others t w.tables) (others t w.tables)

  pub call-Returns :
      (w : World) → Fair R w.schedule → Post w.tables (call s w).0 (call s w).1.tables
  unfolding call
  call-Returns w fair = turned w.schedule w fair
