-- ===== src/Http/Middleware/Limits/Counting.antt =====
-- backend/internal/middleware/ratelimit_db.go over backend/internal/db/ratelimit.go: the middleware as a
-- counter per bucket and window.
use stripe_payment_integrati.Prelude.{
  ℕ, suc, String, ◌≡◌, refl, true, false, ltb, if◌then◌else◌, arith, Bool-cases, inl, inr,
}
use stripe_payment_integrati.Db.{ok, err, out_of_range}
use stripe_payment_integrati.Db.Buckets.{max_int, increment_rate_limit_bucket}
use stripe_payment_integrati.Db.BucketLaws.{view, advance, increment-Counted}
use stripe_payment_integrati.World.{World, call, quietly}
use stripe_payment_integrati.Http.Middleware.Limits.{
  Net, Quota, Admission, judge, bucket_key, admit, window_of, RateLimitCounter,
}

-- The counter that the middleware promises: the first `limit` requests of a window pass, and the others
-- do not; a full counter refuses to count.
abbrev pub verdict : ℕ → ℕ → Admission
verdict limit counted =
    if ltb counted max_int
    then if ltb counted limit then Admission.admitted else Admission.limited
    else Admission.uncounted

judged :
    (limit n : ℕ)
    → judge limit (if ltb n max_int then ok (suc n) else err out_of_range) ≡ verdict limit n
unfolding judge
judged limit n = elim (Bool-cases (ltb n max_int)) [
  | inl room ↦ rw room (elim (Bool-cases (ltb n limit)) [
    | inl below ↦
        let not_over : ltb limit (suc n) ≡ false = ground arith in rw (below, not_over) refl
    | inr above ↦ let over : ltb limit (suc n) ≡ true = ground arith in rw (above, over) refl
  ])
  | inr full ↦ rw full refl
]

-- middleware.RateLimitCounter over the store
abbrev pub table_counter : RateLimitCounter
table_counter = record { increment = λ key start. call (increment_rate_limit_bucket key start) }

module _ (net : Net) (q : Quota) (address : String) (w : World) where
  abbrev key : String
  key = bucket_key net table_counter q address

  abbrev start : ℕ
  start = window_of q.window w.clock

  -- How an undisturbed request is counted.
  pub record CountedOnce (after : Admission × World) : Type 0 where
    pub answer : after.0 ≡ verdict q.limit (view w.tables key start)
    pub counts :
        (k : String) (s : ℕ) → view after.1.tables k s ≡ advance key start (view w.tables) k s

  -- An undisturbed request steps the abstract counter of its client and window: it is admitted where
  -- fewer than `limit` requests were counted before, and it adds one to that counter and to no other;
  -- where the counter is full it is refused and no counter moves.
  pub admit-CountedOnce : CountedOnce (admit net table_counter q address (quietly w))
  unfolding admit call
  admit-CountedOnce =
      let done = increment-Counted key start w.clock w.tables in
      record {
        answer = rw done.answer (judged q.limit (view w.tables key start));
        counts = done.counts;
      }
