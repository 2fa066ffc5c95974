-- ===== src/RateLimit/Bounds.antt =====
-- The two storage paths of the token bucket of skr_crypto/server/rate_limit_bucket.py side by side, and
-- when a caller is admitted again.
use skr_crypto.Prelude.{
  ℕ, ◌-◌, ◌*◌, ◌≤◌, ◌<◌, true, Option, none, some, ◌≡◌, refl, arith, if◌then◌else◌,
}
use skr_crypto.RateLimit.{Params, check_row, check_record, check_sqlite, check_memory}
use skr_crypto.RateLimit.Buckets.{Bucket, Key, Table, find, same_key, find-put}

pub one_le_full : (one c : ℕ) → 0 < c → one ≤ c * one
one_le_full one c h = grind arith

module _ (one : ℕ) where
  check_row-eq-check_record :
      (p : Params) (now : ℕ) (b : Option Bucket)
      → 0 < p.capacity
      → check_row one p now b ≡ check_record one p now b
  unfolding check_row check_record
  check_row-eq-check_record p now none h = ground (arith, one_le_full one p.capacity h)
  check_row-eq-check_record p now (some b) h = ground arith

  -- For parameters that `BucketParams` accepts, the SQLite path and the memory path give the same
  -- answer and the same buckets.
  pub check_sqlite-eq-check_memory :
      (key : Key) (p : Params) (now : ℕ) (t : Table)
      → 0 < p.capacity
      → check_sqlite one key p now t ≡ check_memory one key p now t
  unfolding check_sqlite check_memory
  check_sqlite-eq-check_memory key p now t h = rw (check_row-eq-check_record p now (find key t) h)

  pub check-find :
      (j k : Key) (p : Params) (now : ℕ) (t : Table)
      → find k (check_memory one j p now t).1
        ≡ (if same_key j k then some (check_record one p now (find j t)).1 else find k t)
  unfolding check_memory
  check-find j k p now t = find-put j k (check_record one p now (find j t)).1 t

  pub check-admit :
      (j : Key) (p : Params) (now : ℕ) (t : Table)
      → (check_memory one j p now t).0 ≡ (check_record one p now (find j t)).0
  unfolding check_memory
  check-admit j p now t = refl

  -- A caller that waited long enough for one token to flow in is admitted.
  pub admitted_after_wait :
      (k : Key) (p : Params) (now : ℕ) (t : Table) (b : Bucket)
      → 0 < p.capacity
      → find k t ≡ some b
      → one ≤ (now - b.updated_at) * p.refill
      → (check_memory one k p now t).0 ≡ true
  unfolding check_memory check_record
  admitted_after_wait k p now t b h e w = ground (arith, one_le_full one p.capacity h)
