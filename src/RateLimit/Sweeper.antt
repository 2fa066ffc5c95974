-- ===== src/RateLimit/Sweeper.antt =====
-- The sweeper: what a deletion of idle buckets can and cannot be seen by.
use skr_crypto.Prelude.{
  ℕ, ◌+◌, ◌-◌, ◌*◌, ◌≤◌, ◌<◌, true, Option, none, some, [], ◌∷◌, ◌≡◌, arith, ltb, if◌then◌else◌,
  eq_iff, length, refl, eq_refl,
}
use skr_crypto.RateLimit.{Params, check_record, check_memory, sweep_idle}
use skr_crypto.RateLimit.Bounds.{check-find, check-admit, one_le_full}
use native.Mathlib.Nat.{mul-le-mul_right}
use skr_crypto.RateLimit.Buckets.{Bucket, Key, Table, find, kept, removed, same_key}

length-kept : (cutoff : ℕ) (t : Table) → removed cutoff t + length (kept cutoff t) ≡ length t
unfolding kept removed
length-kept cutoff [] = omega arith
length-kept cutoff ((j, b) ∷ t) = ground (arith, length-kept cutoff t)

-- The count that `sweep_idle` returns is the number of buckets that are gone.
pub sweep_count :
    (idle now : ℕ) (t : Table)
    → (sweep_idle idle now t).0 + length (sweep_idle idle now t).1 ≡ length t
unfolding sweep_idle
sweep_count idle now t = length-kept (now - idle) t

-- One bucket for each key.
abbrev pub Distinct : Table → Type 0
Distinct [] = Unit {0}
Distinct ((j, b) ∷ t) = (find j t ≡ none) × Distinct t

-- A bucket that the sweep leaves alone, or none.
abbrev pub survives : ℕ → Option Bucket → Option Bucket
survives cutoff none = none
survives cutoff (some b) = if ltb b.updated_at cutoff then none else some b

same_key_self : (k : Key) → same_key k k ≡ true
same_key_self k = ground (arith, eq_refl k.key_value)

pub find-same_key : (j k : Key) (t : Table) → same_key j k ≡ true → find k t ≡ find j t
unfolding find
find-same_key j k [] h = refl
find-same_key j k ((i, b) ∷ t) h = ground (
  arith,
  find-same_key j k t h,
  eq_iff j.key_value k.key_value,
  eq_iff i.key_value j.key_value,
  eq_iff i.key_value k.key_value,
)

pub find-kept-none :
    (cutoff : ℕ) (k : Key) (t : Table) → find k t ≡ none → find k (kept cutoff t) ≡ none
unfolding find kept
find-kept-none cutoff k [] e = refl
find-kept-none cutoff k ((j, b) ∷ t) e = ground (arith, find-kept-none cutoff k t)

pub find-kept :
    (cutoff : ℕ) (k : Key) (t : Table)
    → Distinct t
    → find k (kept cutoff t) ≡ survives cutoff (find k t)
unfolding find kept
find-kept cutoff k [] d = refl
find-kept cutoff k ((j, b) ∷ t) d =
    ground (arith, find-kept cutoff k t d.1, find-kept-none cutoff k t, find-same_key j k t)

pub full_after :
    (a c r idle now now' : ℕ) → now' ≤ now → a < now' - idle → c ≤ idle * r → c ≤ (now - a) * r
full_after a c r idle now now' h k f =
    omega (arith, mul-le-mul_right r (let e : idle ≤ now - a = omega arith in e))

module _ (one : ℕ) where
  swept_record :
      (p : Params) (idle at now : ℕ) (o : Option Bucket)
      → at ≤ now
      → 0 < p.capacity
      → p.capacity * one ≤ idle * p.refill
      → check_record one p now (survives (at - idle) o) ≡ check_record one p now o
  unfolding check_record
  swept_record p idle at now none h c f = refl
  swept_record p idle at now (some b) h c f = ground (
    arith,
    one_le_full one p.capacity c,
    full_after b.updated_at (p.capacity * one) p.refill idle now at h,
  )

  -- A sweep whose threshold is at least the time in which an empty bucket fills up is invisible: a
  -- later check of any caller gives the answer, and leaves the bucket, that it would without it.
  sweep_invisible :
      (k : Key) (p : Params) (idle at now : ℕ) (t : Table)
      → Distinct t
      → at ≤ now
      → 0 < p.capacity
      → p.capacity * one ≤ idle * p.refill
      → ((check_memory one k p now (sweep_idle idle at t).1).0 ≡ (check_memory one k p now t).0)
        × (find k (check_memory one k p now (sweep_idle idle at t).1).1
            ≡ find k (check_memory one k p now t).1)
  unfolding sweep_idle
  sweep_invisible k p idle at now t d h c f =
      let e : check_record one p now (find k (kept (at - idle) t))
          ≡ check_record one p now (find k t) =
        rw find-kept (swept_record p idle at now (find k t) h c f) in
      (
        rw (check-admit one k p now (kept (at - idle) t), check-admit one k p now t, e),
        rw (
          check-find one k k p now (kept (at - idle) t),
          check-find one k k p now t,
          same_key_self k,
          e,
        ),
      )
