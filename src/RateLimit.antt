-- ===== src/RateLimit.antt =====
-- skr_crypto/server/rate_limit_bucket.py: `BucketParams` and `TokenBucketLimiter`. The source's
-- floats are whole numbers of a unit here: `one` units are a token, and `refill` units flow in at
-- each tick of the clock. `max(0.0, now - last)` is the subtraction of ℕ, which stops at 0.
pub mod Buckets
pub mod Bounds
pub mod Sweeper
pub mod Admitted
mod Tests
use skr_crypto.Prelude.{
  ℕ, ◌+◌, ◌-◌, ◌*◌, Bool, true, false, Option, none, some, min, max, ltb, leb, ◌||◌, if◌then◌else◌,
}
use skr_crypto.RateLimit.Buckets.{Bucket, Key, Table, find, put, removed, kept}

pub record Params : Type 0 where
  pub capacity : ℕ
  pub refill : ℕ

-- `__post_init__`; `none` is its `ValueError`.
unfoldable pub make_params : ℕ → ℕ → Option Params
make_params capacity refill =
    if ltb capacity 1 || leb refill 0
    then none
    else some (record { capacity = capacity; refill = refill })

module _ (one : ℕ) where
  -- What a bucket holds at `now`.
  unfoldable pub refilled : Params → ℕ → Bucket → ℕ
  refilled p now b = min (p.capacity * one) (b.tokens + (now - b.updated_at) * p.refill)

  spend : Params → ℕ → ℕ → Bool × Bucket
  spend p now current =
      if ltb current one
      then (false, record { tokens = current; updated_at = now })
      else (true, record { tokens = current - one; updated_at = now })

  -- The row that `_check_sqlite` writes, and its result.
  unfoldable pub check_row : Params → ℕ → Option Bucket → Bool × Bucket
  unfolding spend refilled
  check_row p now none = (
    leb one (p.capacity * one),
    record { tokens = max (p.capacity * one - one) 0; updated_at = now },
  )
  check_row p now (some b) = spend p now (refilled p now b)

  -- `_check_memory`, which changes the record in place.
  unfoldable pub check_record : Params → ℕ → Option Bucket → Bool × Bucket
  unfolding refilled
  check_record p now none = (true, record { tokens = p.capacity * one - one; updated_at = now })
  check_record p now (some b) =
      let full : Bucket = record b { tokens = refilled p now b } in
      if ltb full.tokens one
      then (false, record full { updated_at = now })
      else (true, record full { tokens = full.tokens - one; updated_at = now })

  unfoldable pub check_sqlite : Key → Params → ℕ → Table → Bool × Table
  check_sqlite key p now t = let (fits, b) = check_row p now (find key t) in (fits, put key b t)

  unfoldable pub check_memory : Key → Params → ℕ → Table → Bool × Table
  check_memory key p now t = let (fits, b) = check_record p now (find key t) in (fits, put key b t)

-- `sweep_idle`, the DELETE and the loop over the stale keys alike; `now - idle` may be negative in
-- the source, where no reading of the clock is below it.
unfoldable pub sweep_idle : ℕ → ℕ → Table → ℕ × Table
sweep_idle idle now t = (removed (now - idle) t, kept (now - idle) t)
