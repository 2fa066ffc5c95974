-- ===== src/Reports/Totals.antt =====
-- The totals of a summary against the records of the log, and the days of its buckets.
use skr_crypto.Reports.{
  Record, DayBucket, empty_bucket, validate_range, range_error, reversed, too_long, empty_buckets,
  or_zero, is_success, count_record, at_day, in_range, count_all, sum, PeriodSummary, summarise,
  summary, aggregate_period,
}
use skr_crypto.Prelude.{
  ℕ, zero, suc, ◌+◌, ◌-◌, ◌≤◌, ◌<◌, ◌⊎◌, inl, inr, Bool-cases, String, ◌&&◌, not, List, [], ◌∷◌,
  ◌≡◌, refl, ap, arith, length, str_eq, str_eq-other, ltb, ltb→lt, if◌then◌else◌,
}

-- The buckets of consecutive days.
abbrev pub Dated : ℕ → List DayBucket → Type 0
Dated d [] = Unit {0}
Dated d (b ∷ bs) = (b.date ≡ d) × Dated (d + 1) bs

empty_buckets-Dated : (d n : ℕ) → Dated d (empty_buckets d n)
unfolding empty_buckets
empty_buckets-Dated d zero = tt
empty_buckets-Dated d (suc n) = (refl, empty_buckets-Dated (d + 1) n)

length-empty_buckets : (d n : ℕ) → length (empty_buckets d n) ≡ n
unfolding empty_buckets
length-empty_buckets d zero = refl
length-empty_buckets d (suc n) = ap suc (length-empty_buckets (d + 1) n)

date-count_record : (r : Record) (b : DayBucket) → (count_record r b).date ≡ b.date
unfolding count_record
date-count_record r b = ground arith

at_day-Dated :
    (d e : ℕ) (r : Record) (bs : List DayBucket)
    → Dated e bs
    → Dated e (at_day d (count_record r) bs)
unfolding at_day
at_day-Dated d e r [] h = tt
at_day-Dated d e r (b ∷ bs) h = ground (arith, date-count_record r b, at_day-Dated d (e + 1) r bs)

length-at_day :
    (d : ℕ) (f : DayBucket → DayBucket) (bs : List DayBucket) → length (at_day d f bs) ≡ length bs
unfolding at_day
length-at_day d f [] = refl
length-at_day d f (b ∷ bs) = ap suc (length-at_day d f bs)

-- A measure of a record, added up over the records of the period.
unfoldable pub tally : ℕ → ℕ → (Record → ℕ) → List Record → ℕ
unfolding in_range
tally from to g [] = 0
tally from to g (r ∷ rs) = (if in_range from to r.day then g r else 0) + tally from to g rs

-- 1 for a record of an event.
abbrev pub of_event : String → Record → ℕ
of_event name r = if str_eq r.event name then 1 else 0

-- A number that a bucket counts, and what one record adds to it.
module _ (f : DayBucket → ℕ) (g : Record → ℕ)
    (step : (r : Record) (b : DayBucket) → f (count_record r b) ≡ f b + g r)
    (start : (d : ℕ) → f (empty_bucket d) ≡ 0) where
  sum-at_day_before :
      (d e : ℕ) (r : Record) (bs : List DayBucket)
      → Dated e bs
      → d < e
      → sum f (at_day d (count_record r) bs) ≡ sum f bs
  unfolding sum at_day
  sum-at_day_before d e r [] h k = refl
  sum-at_day_before d e r (b ∷ bs) h k = ground (arith, sum-at_day_before d (e + 1) r bs)

  sum-at_day :
      (d e : ℕ) (r : Record) (bs : List DayBucket)
      → Dated e bs
      → e ≤ d
      → d < e + length bs
      → sum f (at_day d (count_record r) bs) ≡ sum f bs + g r
  unfolding sum at_day
  sum-at_day d e r [] h k l = omega (arith, k, l)
  sum-at_day d e r (b ∷ bs) h k l =
      ground (arith, sum-at_day d (e + 1) r bs, sum-at_day_before d (e + 1) r bs, step r b)

  sum-empty_buckets : (d n : ℕ) → sum f (empty_buckets d n) ≡ 0
  unfolding sum empty_buckets
  sum-empty_buckets d zero = refl
  sum-empty_buckets d (suc n) = omega (arith, start d, sum-empty_buckets (d + 1) n)

  sum-count_all :
      (from to : ℕ) (rs : List Record) (bs : List DayBucket)
      → Dated from bs
      → to < from + length bs
      → sum f (count_all from to rs bs) ≡ sum f bs + tally from to g rs
  unfolding count_all tally in_range
  sum-count_all from to [] bs h k = omega arith
  sum-count_all from to (r ∷ rs) bs h k =
      let d = or_zero r.day in
      let counted = at_day d (count_record r) bs in
      ground (
        arith,
        sum-at_day d from r bs,
        at_day-Dated d from r bs,
        length-at_day d (count_record r) bs,
        sum-count_all from to rs bs,
        sum-count_all from to rs counted,
      )

  sum-count_period :
      (from to : ℕ) (rs : List Record)
      → from ≤ to
      → sum f (count_all from to rs (empty_buckets from (to - from + 1))) ≡ tally from to g rs
  sum-count_period from to rs h =
      let n = to - from + 1 in
      let bs = empty_buckets from n in
      omega (
        arith,
        sum-count_all from to rs bs (empty_buckets-Dated from n)
            (omega (arith, length-empty_buckets from n)),
        sum-empty_buckets from n,
      )

count_all-Dated :
    (from to e : ℕ) (rs : List Record) (bs : List DayBucket)
    → Dated e bs
    → Dated e (count_all from to rs bs) × (length (count_all from to rs bs) ≡ length bs)
unfolding count_all
count_all-Dated from to e [] bs h = (h, refl)
count_all-Dated from to e (r ∷ rs) bs h = ground (
  arith,
  at_day-Dated (or_zero r.day) e r bs,
  length-at_day (or_zero r.day) (count_record r) bs,
  count_all-Dated from to e rs bs,
  count_all-Dated from to e rs (at_day (or_zero r.day) (count_record r) bs),
)

-- A period that is accepted has one bucket for each of its days, in order; a period that ends before
-- it begins, or that has more than 366 days, is refused, and no other.
aggregate_period-days :
    (from to : ℕ) (rs : List Record)
    → ((s : PeriodSummary) × (aggregate_period from to rs ≡ summary s)
        × Dated from s.buckets
        × (from + length s.buckets ≡ to + 1)
        × (length s.buckets ≤ 366))
      ⊎ ((aggregate_period from to rs ≡ range_error reversed) × (to < from))
      ⊎ ((aggregate_period from to rs ≡ range_error too_long) × (from + 366 ≤ to))
unfolding aggregate_period summarise validate_range
aggregate_period-days from to rs = elim (Bool-cases (ltb to from)) [
  | inl early ↦ inr (inl (rw (aggregate_period, early) refl, ltb→lt to from early))
  | inr ordered ↦ elim (Bool-cases (ltb 366 (to - from + 1))) [
    | inl long ↦ inr (inr (rw (aggregate_period, ordered, long) refl, ground arith))
    | inr short ↦
        let n = to - from + 1 in
        let bs = count_all from to rs (empty_buckets from n) in
        let days =
          count_all-Dated from to from rs (empty_buckets from n) (empty_buckets-Dated from n) in
        inl (
          summarise from to bs,
          rw (aggregate_period, ordered, short) refl,
          days.0,
          ground (arith, days.1, length-empty_buckets from n),
          ground (arith, days.1, length-empty_buckets from n),
        )
  ]
]

pub volume : Record → ℕ
volume r = if str_eq r.event "SEND_SUCCESS" then or_zero r.amount else 0

pub receipts_ok : Record → ℕ
receipts_ok r = if str_eq r.event "RECEIPT_RESOLVED" && is_success r then 1 else 0

pub receipts_failed : Record → ℕ
receipts_failed r = if str_eq r.event "RECEIPT_RESOLVED" && not (is_success r) then 1 else 0

module _ (r : Record) (b : DayBucket) where
  success_step :
      (count_record r b).send_success_count ≡ b.send_success_count + of_event "SEND_SUCCESS" r
  unfolding count_record
  success_step = ground arith

  volume_step : (count_record r b).send_success_volume ≡ b.send_success_volume + volume r
  unfolding count_record volume
  volume_step = ground arith

  rejected_step :
      (count_record r b).send_rejected_count ≡ b.send_rejected_count + of_event "SEND_REJECTED" r
  unfolding count_record
  rejected_step = ground (arith, str_eq-other r.event "SEND_REJECTED" "SEND_SUCCESS" refl)

  failed_step :
      (count_record r b).send_failed_count ≡ b.send_failed_count + of_event "SEND_FAILED" r
  unfolding count_record
  failed_step = ground (
    arith,
    str_eq-other r.event "SEND_FAILED" "SEND_SUCCESS" refl,
    str_eq-other r.event "SEND_FAILED" "SEND_REJECTED" refl,
  )

  duplicate_step :
      (count_record r b).send_duplicate_count ≡ b.send_duplicate_count + of_event "SEND_DUPLICATE" r
  unfolding count_record
  duplicate_step = ground (
    arith,
    str_eq-other r.event "SEND_DUPLICATE" "SEND_SUCCESS" refl,
    str_eq-other r.event "SEND_DUPLICATE" "SEND_REJECTED" refl,
    str_eq-other r.event "SEND_DUPLICATE" "SEND_FAILED" refl,
  )

  receipts_step :
      ((count_record r b).receipt_resolved_success_count
        ≡ b.receipt_resolved_success_count + receipts_ok r)
      × ((count_record r b).receipt_resolved_failure_count
          ≡ b.receipt_resolved_failure_count + receipts_failed r)
  unfolding count_record receipts_ok receipts_failed
  receipts_step = ground (
    arith,
    str_eq-other r.event "RECEIPT_RESOLVED" "SEND_SUCCESS" refl,
    str_eq-other r.event "RECEIPT_RESOLVED" "SEND_REJECTED" refl,
    str_eq-other r.event "RECEIPT_RESOLVED" "SEND_FAILED" refl,
    str_eq-other r.event "RECEIPT_RESOLVED" "SEND_DUPLICATE" refl,
  )

-- The totals of an accepted period are the numbers of its records of each event in the log, with the
-- sum of the amounts of its successful sends: no record is lost and none is counted twice.
pub aggregate_period-totals :
    (from to : ℕ) (rs : List Record) (s : PeriodSummary)
    → aggregate_period from to rs ≡ summary s
    → (s.total_send_success_count ≡ tally from to (of_event "SEND_SUCCESS") rs)
      × (s.total_send_success_volume ≡ tally from to volume rs)
      × (s.total_send_rejected_count ≡ tally from to (of_event "SEND_REJECTED") rs)
      × (s.total_send_failed_count ≡ tally from to (of_event "SEND_FAILED") rs)
      × (s.total_send_duplicate_count ≡ tally from to (of_event "SEND_DUPLICATE") rs)
      × (s.total_receipt_resolved_success_count ≡ tally from to receipts_ok rs)
      × (s.total_receipt_resolved_failure_count ≡ tally from to receipts_failed rs)
unfolding aggregate_period summarise validate_range
aggregate_period-totals from to rs s h =
    let bs = count_all from to rs (empty_buckets from (to - from + 1)) in
    let order : from ≤ to = ground arith in
    let same : s ≡ summarise from to bs = ground arith in
    rw same (
      sum-count_period (λ b. b.send_success_count) (of_event "SEND_SUCCESS") success_step
          (λ _. refl) from to rs order,
      sum-count_period (λ b. b.send_success_volume) volume volume_step (λ _. refl) from to rs order,
      sum-count_period (λ b. b.send_rejected_count) (of_event "SEND_REJECTED") rejected_step
          (λ _. refl) from to rs order,
      sum-count_period (λ b. b.send_failed_count) (of_event "SEND_FAILED") failed_step (λ _. refl)
          from to rs order,
      sum-count_period (λ b. b.send_duplicate_count) (of_event "SEND_DUPLICATE") duplicate_step
          (λ _. refl) from to rs order,
      sum-count_period (λ b. b.receipt_resolved_success_count) receipts_ok
          (λ r b. (receipts_step r b).0) (λ _. refl) from to rs order,
      sum-count_period (λ b. b.receipt_resolved_failure_count) receipts_failed
          (λ r b. (receipts_step r b).1) (λ _. refl) from to rs order,
    )
