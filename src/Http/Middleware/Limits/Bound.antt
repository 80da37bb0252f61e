-- ===== src/Http/Middleware/Limits/Bound.antt =====
-- backend/internal/middleware/ratelimit_db.go among other servers: no more requests pass than the limit.
use stripe_payment_integrati.Http.Router.Keeping.{admit-Keeps}
use stripe_payment_integrati.World.Returns.{Returns, call-Returns}
use stripe_payment_integrati.Prelude.{
  ◌-◌, ℕ, suc, zero, ◌≤◌, String, ◌==◌, ◌&&◌, ◌≡◌, Bool, true, false, ltb, eqb, if◌then◌else◌,
  arith, Bool-cases, inl, inr, List, [], ◌∷◌, eq_refl, subst, sym,
}
use stripe_payment_integrati.Db.{Tables, Result, ok, err}
use stripe_payment_integrati.Db.Buckets.{max_int, increment_rate_limit_bucket}
use stripe_payment_integrati.Db.BucketLaws.{view, Counted, increment-Counted}
use stripe_payment_integrati.World.{Run, pure, bind, read_clock, World, call}
use stripe_payment_integrati.World.Keeps.{
  Preorder, Obeys, Keeps, Keeps-bind, Fair, Keeps-read_clock, Keeps-call, Keeps-pure,
}
use stripe_payment_integrati.Http.Middleware.Limits.{
  Net, Quota, Admission, admit, window_of, bucket_key, judge,
}
use stripe_payment_integrati.Http.Middleware.Limits.Counting.{table_counter}

-- A counter does not go down.
abbrev pub Counts : String → ℕ → Tables → Tables → Type 0
Counts key start a b = view a key start ≤ view b key start

Counts-preorder : (key : String) (start : ℕ) → Preorder (Counts key start)
Counts-preorder key start = record { refl_at = λ db. ground arith; trans = λ f g. ground arith }

-- No count lowers any counter.
increment-Counts :
    (key k : String) (start s : ℕ) → Obeys (Counts key start) (increment_rate_limit_bucket k s)
increment-Counts key k start s now db =
    rw ((increment-Counted k s now db).counts key start)
      (grows ((k == key && eqb s start) && ltb (view db k s) max_int))
  where
    grows :
        (b : Bool) → view db key start ≤ (if b then suc (view db key start) else view db key start)
    grows true = ground arith
    grows false = ground arith

-- The windows of a client's requests, and whether they were admitted, oldest first.
module _ (net : Net) (q : Quota) (address : String) where
  unfoldable pub attempt : Run (ℕ × Admission)
  attempt =
      bind read_clock
        λ now. bind (admit net table_counter q address) λ a. pure (window_of q.window now, a)

  unfoldable pub attempts : ℕ → Run (List (ℕ × Admission))
  attempts zero = pure []
  attempts (suc n) = bind attempt λ a. bind (attempts n) λ rest. pure (a ∷ rest)

abbrev is_admitted : Admission → Bool
is_admitted Admission.admitted = true
is_admitted _ = false

-- the requests of a window that were admitted
unfoldable pub admitted_in : ℕ → List (ℕ × Admission) → ℕ
admitted_in start [] = 0
admitted_in start ((s, a) ∷ rest) =
    let below = admitted_in start rest in if eqb s start && is_admitted a then suc below else below

-- A count that answers has seen all that was counted before it.
abbrev Grown : String → ℕ → Tables → Result ℕ → Tables → Type 0
Grown key start a (ok n) b = (suc (view a key start) ≤ n) × (n ≡ view b key start)
Grown key start a (err e) b = view a key start ≤ view b key start

module _ (key : String) (start : ℕ) where
  ran :
      (a b : Tables) (after : Result ℕ × Tables)
      → view a key start ≤ view b key start
      → Counted key start b after
      → Grown key start a after.0 after.1
  ran a b after le done = elim (Bool-cases (ltb (view b key start) max_int)) [
    | inl room ↦
        let c : view after.1 key start ≡ suc (view b key start) =
          rw (done.counts key start, eq_refl key, room) (ground arith) in
        rw (done.answer, room) (ground arith, ground arith)
    | inr full ↦
        let c : view after.1 key start ≡ view b key start =
          rw (done.counts key start, full) (ground arith) in
        rw (done.answer, full) (ground arith)
  ]

  counting-Returns :
      Returns (Counts key start) (Grown key start) (increment_rate_limit_bucket key start)
  counting-Returns = record {
    runs = λ t a b le. ran a b _ le (increment-Counted key start t b);
    refuses = λ a b le. le;
    loses = λ t a b le. let more = increment-Counts key key start start t b in ground arith;
  }

module _ (net : Net) (q : Quota) (address : String) where
  abbrev key : String
  key = bucket_key net table_counter q address

  attempt-Keeps : (start : ℕ) → Keeps (Counts key start) (attempt net q address)
  unfolding attempt
  attempt-Keeps start =
      let order = Counts-preorder key start in
      Keeps-bind order _ _ (Keeps-read_clock order) λ now.
        Keeps-bind order _ _
          (admit-Keeps order net table_counter
            (λ k s.
              Keeps-call order (increment_rate_limit_bucket k s) (increment-Counts key k start s))
            q address)
          (λ a. Keeps-pure order (window_of q.window now, a))

  -- An admitted request was counted, and within the limit.
  within :
      (a b : Tables) (start : ℕ) (r : Result ℕ)
      → Grown key start a r b
      → is_admitted (judge q.limit r) ≡ true
      → (suc (view a key start) ≤ view b key start) × (view b key start ≤ q.limit)
  unfolding judge
  within a b start (ok n) (more, same) passed = elim (Bool-cases (ltb q.limit n)) [
    | inl over ↦ absurd (ground arith)
    | inr fits ↦ (ground arith, ground arith)
  ]
  within a b start (err e) grown passed = absurd (ground arith)

  counted-within :
      (start : ℕ) (w : World)
      → Fair (Counts key start) w.schedule
      → eqb (window_of q.window w.clock) start ≡ true
      → is_admitted (attempt net q address w).0.1 ≡ true
      → (suc (view w.tables key start) ≤ view (attempt net q address w).1.tables key start)
        × (view (attempt net q address w).1.tables key start ≤ q.limit)
  unfolding attempt admit
  counted-within start w fair here passed =
      let e : window_of q.window w.clock ≡ start = ground arith in
      let counting = λ (s : ℕ). call (increment_rate_limit_bucket key s) w in
      let grown : Grown key start w.tables (counting start).0 (counting start).1.tables =
        call-Returns (Counts-preorder key start) (Grown key start)
          (increment_rate_limit_bucket key start) (counting-Returns key start) w fair in
      within w.tables _ start _
        (subst (λ s. Grown key start w.tables (counting s).0 (counting s).1.tables) (sym e) grown)
        passed

  -- At most what is left of the limit is admitted, whatever happens in between: on any schedule, with any
  -- statement failing or losing its reply, and with other servers counting too, a client that makes `n`
  -- requests has at most `limit` less those counted before admitted in one window.
  pub attempts-bound :
      (n start : ℕ) (w : World)
      → Fair (Counts key start) w.schedule
      → admitted_in start (attempts net q address n w).0 ≤ q.limit - view w.tables key start
  unfolding attempts admitted_in attempt
  attempts-bound zero start w fair = ground arith
  attempts-bound (suc n) start w fair =
      let kept = (attempt-Keeps start).at w fair in
      let w' = (attempt net q address w).1 in
      let rest : admitted_in start (attempts net q address n w').0
          ≤ q.limit - view w'.tables key start =
        attempts-bound n start w' kept.1 in
      elim (Bool-cases (eqb (attempt net q address w).0.0 start)) [
        | inl here ↦ elim (Bool-cases (is_admitted (attempt net q address w).0.1)) [
          | inl passed ↦
              let spent = counted-within start w fair here passed in
              rw (here, passed) (ground (arith, spent.0, spent.1, rest))
          | inr not_passed ↦ rw (here, not_passed) (ground (arith, kept.0, rest))
        ]
        | inr elsewhere ↦ rw elsewhere (ground (arith, kept.0, rest))
      ]
