-- ===== src/RateLimit/Admitted.antt =====
-- How many requests of one caller pass the limiter of skr_crypto/server/rate_limit_bucket.py, while
-- other callers' requests and the sweeper run in between.
use skr_crypto.Prelude.{
  ℕ, ◌+◌, ◌-◌, ◌*◌, ◌≤◌, ◌<◌, Bool, true, false, Option, none, some, List, [], ◌∷◌, ◌≡◌, ◌&&◌, inl,
  inr, ◌⊎◌, refl, ap, arith, if◌then◌else◌, eq_iff, Bool-cases,
}
use native.Mathlib.Nat.{mul-le-mul_right}
use skr_crypto.RateLimit.{Params, refilled, check_record, check_memory, sweep_idle}
use skr_crypto.RateLimit.Bounds.{one_le_full, check-find, check-admit}
use skr_crypto.RateLimit.Sweeper.{
  Distinct, survives, find-kept, find-kept-none, find-same_key, full_after,
}
use skr_crypto.RateLimit.Buckets.{Bucket, Key, Table, find, put, kept, same_key, find-put}

mul_le : (x y z r : ℕ) → x ≤ y + z → x * r ≤ y * r + z * r
mul_le x y z r h = omega (arith, mul-le-mul_right r h)

count_mul : (c : Bool) (n m : ℕ) → ((if c then 1 else 0) + n) * m ≡ (if c then m else 0) + n * m
count_mul true n m = omega arith
count_mul false n m = omega arith

elapsed_mul : (a b c r : ℕ) → a ≤ b → b ≤ c → (c - b) * r + (b - a) * r ≡ (c - a) * r
elapsed_mul a b c r h k =
    omega (arith, ap (λ (x : ℕ). x * r) (let e : c - b + (b - a) ≡ c - a = omega arith in e))

same_key-eq : (j k : Key) → same_key j k ≡ true → j ≡ k
same_key-eq j k h = ground (arith, eq_iff j.key_value k.key_value)

put-Distinct : (k : Key) (b : Bucket) (t : Table) → Distinct t → Distinct (put k b t)
unfolding put find
put-Distinct k b [] d = (refl, tt)
put-Distinct k b ((j, c) ∷ t) d = ground (
  arith,
  put-Distinct k b t,
  find-put k j b t,
  find-same_key j k t,
  eq_iff j.key_value k.key_value,
  eq_iff k.key_value j.key_value,
)

kept-Distinct : (cutoff : ℕ) (t : Table) → Distinct t → Distinct (kept cutoff t)
unfolding kept
kept-Distinct cutoff [] d = tt
kept-Distinct cutoff ((j, b) ∷ t) d =
    ground (arith, kept-Distinct cutoff t, find-kept-none cutoff j t)

-- A request of a caller, or a turn of the sweeper with its threshold; each with its reading of the clock.
pub data Event : Type 0 where
  asks : Key → ℕ → Event
  sweeps : ℕ → ℕ → Event

module _ (one : ℕ) where
  -- The table after an event, and whether it admitted a request of `k`.
  unfoldable pub after : Key → Params → Event → Table → Bool × Table
  after k p (asks j at) t = let r = check_memory one j p at t in (same_key j k && r.0, r.1)
  after k p (sweeps idle at) t = (false, (sweep_idle idle at t).1)

  -- How many of the requests of `k` are admitted, among events of any callers and of the sweeper.
  unfoldable pub admitted : Key → Params → List Event → Table → ℕ
  unfolding after
  admitted k p [] t = 0
  admitted k p (e ∷ rest) t =
      let r = after k p e t in (if r.0 then 1 else 0) + admitted k p rest r.1

  abbrev pub time_of : Event → ℕ
  time_of (asks j at) = at
  time_of (sweeps idle at) = at

  -- The clock does not run backwards, from `now` on.
  abbrev pub Ordered : ℕ → List Event → Type 0
  Ordered now [] = Unit {0}
  Ordered now (e ∷ rest) = (now ≤ time_of e) × Ordered (time_of e) rest

  abbrev pub last_time : ℕ → List Event → ℕ
  last_time now [] = now
  last_time now (e ∷ rest) = last_time (time_of e) rest

  -- An empty bucket fills up in the threshold of a sweep.
  abbrev pub IsSlow : Params → Event → Type 0
  IsSlow p (asks j at) = Unit {0}
  IsSlow p (sweeps idle at) = p.capacity * one ≤ idle * p.refill

  abbrev pub AllSlow : Params → List Event → Type 0
  AllSlow p [] = Unit {0}
  AllSlow p (e ∷ rest) = IsSlow p e × AllSlow p rest

  -- What a bucket could hold at `now` if nothing capped it.
  abbrev potential : Params → ℕ → Option Bucket → ℕ
  potential p now none = p.capacity * one
  potential p now (some b) = b.tokens + (now - b.updated_at) * p.refill

  -- A check takes a token from what the bucket could hold, if it admits.
  check-potential :
      (p : Params) (now : ℕ) (o : Option Bucket)
      → 0 < p.capacity
      → (if (check_record one p now o).0 then one else 0)
          + potential p now (some (check_record one p now o).1)
        ≤ potential p now o
  unfolding check_record
  check-potential p now none h = ground (arith, one_le_full one p.capacity h)
  check-potential p now (some b) h = ground arith

  later-potential :
      (p : Params) (now t : ℕ) (o : Option Bucket)
      → now ≤ t
      → potential p t o ≤ potential p now o + (t - now) * p.refill
  later-potential p now t none h = omega arith
  later-potential p now t (some b) h =
      omega (arith, mul_le (t - b.updated_at) (now - b.updated_at) (t - now) p.refill (omega arith))

  last_time-le : (now : ℕ) (es : List Event) → Ordered now es → now ≤ last_time now es
  last_time-le now [] h = omega arith
  last_time-le now (e ∷ rest) h = omega (arith, last_time-le (time_of e) rest h.1)

  step-potential :
      (j k : Key) (p : Params) (now : ℕ) (t : Table)
      → 0 < p.capacity
      → (if same_key j k && (check_memory one j p now t).0 then one else 0)
          + potential p now (find k (check_memory one j p now t).1)
        ≤ potential p now (find k t)
  step-potential j k p now t h = elim (Bool-cases (same_key j k)) [
    | inl same ↦
        rw (check-find one j k p now t, check-admit one j p now t, same)
          (rw (← same_key-eq j k same) (check-potential p now (find j t) h))
    | inr other ↦ rw (check-find one j k p now t, other) (omega arith)
  ]

  -- A bucket that a slow sweep deletes had filled up.
  swept-potential :
      (k : Key) (p : Params) (idle at : ℕ) (t : Table)
      → Distinct t
      → p.capacity * one ≤ idle * p.refill
      → potential p at (find k (kept (at - idle) t)) ≤ potential p at (find k t)
  swept-potential k p idle at t d f =
      rw (find-kept (at - idle) k t d) (survives-potential (find k t))
    where
      survives-potential :
          (o : Option Bucket) → potential p at (survives (at - idle) o) ≤ potential p at o
      survives-potential none = omega arith
      survives-potential (some b) =
          ground
            (arith, full_after b.updated_at (p.capacity * one) p.refill idle at at (omega arith))

  after-potential :
      (k : Key) (p : Params) (e : Event) (t : Table)
      → 0 < p.capacity
      → Distinct t
      → IsSlow p e
      → (if (after k p e t).0 then one else 0) + potential p (time_of e) (find k (after k p e t).1)
        ≤ potential p (time_of e) (find k t)
  unfolding after sweep_idle
  after-potential k p (asks j at) t h d f = step-potential j k p at t h
  after-potential k p (sweeps idle at) t h d f = omega (arith, swept-potential k p idle at t d f)

  after-Distinct :
      (k : Key) (p : Params) (e : Event) (t : Table) → Distinct t → Distinct (after k p e t).1
  unfolding after sweep_idle check_memory
  after-Distinct k p (asks j at) t d = put-Distinct j (check_record one p at (find j t)).1 t d
  after-Distinct k p (sweeps idle at) t d = kept-Distinct (at - idle) t d

  admitted-le_potential :
      (k : Key) (p : Params) (now : ℕ) (es : List Event) (t : Table)
      → 0 < p.capacity
      → Distinct t
      → Ordered now es
      → AllSlow p es
      → admitted k p es t * one ≤ potential p now (find k t) + (last_time now es - now) * p.refill
  unfolding admitted
  admitted-le_potential k p now [] t h d o f = omega arith
  admitted-le_potential k p now (e ∷ rest) t h d o f =
      let r : Bool × Table = after k p e t in
      let at = time_of e in
      omega (
        arith,
        admitted-le_potential k p at rest r.1 h (after-Distinct k p e t d) o.1 f.1,
        after-potential k p e t h d f.0,
        later-potential p now at (find k t) o.0,
        elapsed_mul now at (last_time at rest) p.refill o.0 (last_time-le at rest o.1),
        count_mul r.0 (admitted k p rest r.1) one,
      )

  -- A check never leaves more than a full bucket, the token that it gave out counted.
  check_record-capped :
      (p : Params) (now : ℕ) (o : Option Bucket)
      → 0 < p.capacity
      → (if (check_record one p now o).0 then one else 0)
          + potential p now (some (check_record one p now o).1)
        ≤ p.capacity * one
  unfolding check_record refilled
  check_record-capped p now none h = ground (arith, one_le_full one p.capacity h)
  check_record-capped p now (some b) h = ground arith

  check_memory-capped :
      (j k : Key) (p : Params) (now : ℕ) (t : Table)
      → 0 < p.capacity
      → same_key j k ≡ true
      → (if (check_memory one j p now t).0 then one else 0)
          + potential p now (find k (check_memory one j p now t).1)
        ≤ p.capacity * one
  check_memory-capped j k p now t h same =
      rw (check-find one j k p now t, check-admit one j p now t, same)
        (check_record-capped p now (find j t) h)

  -- The same once `k` has asked, and before it has.
  after-capped :
      (k : Key) (p : Params) (e : Event) (t : Table)
      → 0 < p.capacity
      → ((if (after k p e t).0 then one else 0) + potential p (time_of e) (find k (after k p e t).1)
          ≤ p.capacity * one)
        ⊎ ((after k p e t).0 ≡ false)
  unfolding after
  after-capped k p (sweeps idle at) t h = inr refl
  after-capped k p (asks j at) t h = elim (Bool-cases (same_key j k)) [
    | inl same ↦ inl (rw same (check_memory-capped j k p at t h same))
    | inr differs ↦ inr (rw differs refl)
  ]

  -- In any period, whatever buckets there are at its start and with any requests of other callers and
  -- any turns of the sweeper in between, the requests of `k` that are admitted cost at most a full
  -- bucket and what flows in during the period, while the clock does not run backwards and an empty
  -- bucket fills up within the threshold of each sweep.
  pub admitted_le :
      (k : Key) (p : Params) (now : ℕ) (es : List Event) (t : Table)
      → 0 < p.capacity
      → Distinct t
      → Ordered now es
      → AllSlow p es
      → admitted k p es t * one ≤ p.capacity * one + (last_time now es - now) * p.refill
  unfolding admitted
  admitted_le k p now [] t h d o f = omega arith
  admitted_le k p now (e ∷ rest) t h d o f =
      let r : Bool × Table = after k p e t in
      let at = time_of e in
      let elapsed =
        elapsed_mul now at (last_time at rest) p.refill o.0 (last_time-le at rest o.1) in
      let unique = after-Distinct k p e t d in
      elim (after-capped k p e t h) [
        | inl full ↦ omega (
          arith,
          admitted-le_potential k p at rest r.1 h unique o.1 f.1,
          full,
          elapsed,
          count_mul r.0 (admitted k p rest r.1) one,
        )
        | inr refused ↦
            rw refused (omega (arith, admitted_le k p at rest r.1 h unique o.1 f.1, elapsed))
      ]
