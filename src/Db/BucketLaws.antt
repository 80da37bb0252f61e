-- ===== src/Db/BucketLaws.antt =====
-- backend/internal/db/ratelimit.go: what a count does to the counters, seen as a number for each bucket and
-- window.
use mathlib.Core.Option
use stripe_payment_integrati.Prelude.{
  ℕ, suc, String, ◌==◌, ◌≡◌, refl, true, ◌&&◌, Option, none, some, ltb, eqb, if◌then◌else◌, arith,
  Bool-cases, inl, inr, eq_iff, subst, sym, eq_refl, Bool, ◌∷◌, false, Option-cases, List,
}
use stripe_payment_integrati.Db.{Tables, Bucket, Bool, Result, ok, err, out_of_range, List}
use stripe_payment_integrati.Db.Table.{find_row, update_rows, find_row-update_rows, find_row_sound}
use stripe_payment_integrati.Db.Buckets.{
  is_bucket, max_int, first_request, one_more, increment_rate_limit_bucket, counted,
}

abbrev pub count_of : Option Bucket → ℕ
count_of none = 0
count_of (some b) = b.request_count

-- The requests counted in a bucket and a window.
abbrev pub view : Tables → String → ℕ → ℕ
view db key start = count_of (find_row (is_bucket key start) db.buckets)

-- One more request in a bucket and a window, unless its counter is full.
abbrev pub advance : String → ℕ → (String → ℕ → ℕ) → String → ℕ → ℕ
advance key start counts k s =
    if (key == k && eqb start s) && ltb (counts key start) max_int
    then suc (counts k s)
    else counts k s

same_bucket :
    (k key : String) (s start : ℕ) (b : Bucket)
    → is_bucket k s b ≡ true
    → is_bucket key start b ≡ (k == key && eqb s start)
same_bucket k key s start b h =
    let e : b.bucket_key ≡ k = (eq_iff b.bucket_key k).0 (ground arith) in
    let f : b.window_start ≡ s = ground arith in rw (e, f) refl

symmetric : (k key : String) (s start : ℕ) → (k == key && eqb s start) ≡ (key == k && eqb start s)
symmetric k key s start = elim (Bool-cases (k == key)) [
  | inl h ↦ let e : k ≡ key = (eq_iff k key).0 h in rw e (rw (eq_refl key) (ground arith))
  | inr h ↦ elim (Bool-cases (key == k)) [
    | inl g ↦
        let e : key ≡ k = (eq_iff key k).0 g in
        absurd (ground (arith, subst (λ j. (k == j) ≡ true) (sym e) (eq_refl k)))
    | inr g ↦ rw (h, g) refl
  ]
]

module _ (key : String) (start : ℕ) where
  -- the same bucket, under equal names
  seen_as :
      (db : Tables) (k : String) (s : ℕ)
      → (key == k && eqb start s) ≡ true
      → view db k s ≡ view db key start
  seen_as db k s h =
      let e : key ≡ k = (eq_iff key k).0 (ground arith) in
      let f : start ≡ s = ground arith in rw (e, f) refl

  new-view :
      (db : Tables) (k : String) (s : ℕ)
      → find_row (is_bucket key start) db.buckets ≡ none
      → view (record db { buckets = first_request key start ∷ db.buckets }) k s
        ≡ advance key start (view db) k s
  unfolding find_row
  new-view db k s fresh = elim (Bool-cases (key == k && eqb start s)) [
    | inl h ↦ rw (h, seen_as db k s h, fresh) refl
    | inr h ↦ rw h refl
  ]

  raised : Bool → Option Bucket → ℕ
  raised h none = 0
  raised h (some a) = if h then suc a.request_count else a.request_count

  raised-count :
      (db : Tables) (k : String) (s : ℕ) (o : Option Bucket)
      → ((a : Bucket) → o ≡ some a → is_bucket k s a ≡ true)
      → count_of (Option.map (λ a. if is_bucket key start a then one_more a else a) o)
        ≡ raised (key == k && eqb start s) o
  unfolding raised
  raised-count db k s none found = refl
  raised-count db k s (some a) found =
      rw (same_bucket k key s start a (found a refl), symmetric k key s start)
        (chosen (key == k && eqb start s))
    where
      chosen :
          (h : Bool)
          → (if h then one_more a else a).request_count
            ≡ (if h then suc a.request_count else a.request_count)
      chosen true = refl
      chosen false = refl

  bumped-view :
      (db : Tables) (k : String) (s : ℕ) (b : Bucket)
      → find_row (is_bucket key start) db.buckets ≡ some b
      → ltb b.request_count max_int ≡ true
      → view (record db { buckets = update_rows (is_bucket key start) one_more db.buckets }) k s
        ≡ advance key start (view db) k s
  unfolding raised
  bumped-view db k s b found room =
      rw
        (find_row-update_rows (is_bucket k s) (is_bucket key start) one_more db.buckets (λ a. refl))
        (rw
          (raised-count db k s (find_row (is_bucket k s) db.buckets)
            (λ a e. find_row_sound (is_bucket k s) db.buckets a e))
          (elim (Bool-cases (key == k && eqb start s)) [
            | inl h ↦
                let e : key ≡ k = (eq_iff key k).0 (ground arith) in
                let f : start ≡ s = ground arith in rw (h, sym e, sym f, found, room) refl
            | inr h ↦ rw h (kept (find_row (is_bucket k s) db.buckets))
          ]))
    where
      kept : (o : Option Bucket) → raised false o ≡ count_of o
      kept none = refl
      kept (some a) = refl

  -- What a count answers and leaves.
  pub record Counted (db : Tables) (after : Result ℕ × Tables) : Type 0 where
    pub answer : after.0 ≡ (
        if ltb (view db key start) max_int then ok (suc (view db key start)) else err out_of_range)
    pub counts : (k : String) (s : ℕ) → view after.1 k s ≡ advance key start (view db) k s

  pub increment-Counted :
      (now : ℕ) (db : Tables) → Counted db (increment_rate_limit_bucket key start now db)
  unfolding increment_rate_limit_bucket counted
  increment-Counted now db = elim (Option-cases (find_row (is_bucket key start) db.buckets)) [
    | inl fresh ↦
        rw fresh (record { answer = rw fresh refl; counts = λ k s. new-view db k s fresh })
    | inr (b, found) ↦ elim (Bool-cases (ltb b.request_count max_int)) [
      | inl room ↦
          rw (found, room)
            (record {
              answer = rw (found, room) refl;
              counts = λ k s. bumped-view db k s b found room;
            })
      | inr full ↦
          rw (found, full)
            (record { answer = rw (found, full) refl; counts = λ k s. unmoved k s b found full })
    ]
  ]
    where
      unmoved :
          (k : String) (s : ℕ) (b : Bucket)
          → find_row (is_bucket key start) db.buckets ≡ some b
          → ltb b.request_count max_int ≡ false
          → view db k s ≡ advance key start (view db) k s
      unmoved k s b found full = elim (Bool-cases (key == k && eqb start s)) [
        | inl h ↦ rw (h, found, full) refl
        | inr h ↦ rw h refl
      ]

  -- A count changes nothing but the counters.
  pub increment-only :
      (now : ℕ) (db : Tables)
      → (rows : List Bucket) × ((increment_rate_limit_bucket key start now db).1
          ≡ record db { buckets = rows })
  unfolding increment_rate_limit_bucket counted
  increment-only now db = elim (Option-cases (find_row (is_bucket key start) db.buckets)) [
    | inl fresh ↦ (first_request key start ∷ db.buckets, rw fresh refl)
    | inr (b, found) ↦ elim (Bool-cases (ltb b.request_count max_int)) [
      | inl room ↦ (update_rows (is_bucket key start) one_more db.buckets, rw found (rw room refl))
      | inr full ↦ (db.buckets, rw found (rw full refl))
    ]
  ]
