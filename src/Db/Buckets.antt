-- ===== src/Db/Buckets.antt =====
-- backend/internal/db/ratelimit.go: counters of requests per window; and Ping of store.go.
use stripe_payment_integrati.Prelude.{
  ℕ, suc, String, ◌==◌, Bool, ◌&&◌, not, Option, none, some, ◌∷◌, ltb, eqb, if◌then◌else◌,
}
use stripe_payment_integrati.Db.{Bucket, Statement, Tables, Result, ok, err, out_of_range}
use stripe_payment_integrati.Db.Table.{find_row, filter_rows, update_rows}

-- the primary key
abbrev pub is_bucket : String → ℕ → Bucket → Bool
is_bucket key start b = b.bucket_key == key && eqb b.window_start start

abbrev pub first_request : String → ℕ → Bucket
first_request key start = record { bucket_key = key; window_start = start; request_count = 1 }

abbrev pub one_more : Bucket → Bucket
one_more b = record b { request_count = suc b.request_count }

-- The column is an INT.
abbrev pub max_int : ℕ
max_int = 2147483647

-- INSERT … ON CONFLICT DO UPDATE … RETURNING request_count, by the row that the INSERT runs into
unfoldable pub counted : String → ℕ → Tables → Option Bucket → Result ℕ × Tables
counted key start db none = (ok 1, record db { buckets = first_request key start ∷ db.buckets })
counted key start db (some b) =
    if ltb b.request_count max_int
    then (
      ok (suc b.request_count),
      record db { buckets = update_rows (is_bucket key start) one_more db.buckets },
    )
    else (err out_of_range, db)

unfoldable pub increment_rate_limit_bucket : String → ℕ → Statement ℕ
unfolding counted
increment_rate_limit_bucket key start now db =
    counted key start db (find_row (is_bucket key start) db.buckets)

unfoldable pub cleanup_rate_limit_buckets : ℕ → Statement (Unit {0})
cleanup_rate_limit_buckets older_than now db = (
  ok tt,
  record db { buckets = filter_rows (λ b. not (ltb b.window_start older_than)) db.buckets },
)

unfoldable pub ping : Statement (Unit {0})
ping now db = (ok tt, db)
