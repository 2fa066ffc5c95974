-- ===== src/Reports.antt =====
-- skr_crypto/server/reporting.py: the summary of a period and the list of sanctions hits. A date is
-- the number of its day, an amount is in micro-USDT. The records are the lines of the audit log that
-- `json.loads` accepts; their date is what `_record_date` finds. Rendering as CSV and XLSX is left out.
pub mod Totals
mod Tests
use skr_crypto.Prelude.Text.{mentions_lower, lower, codes}
use skr_crypto.Prelude.Chars.{chars_eq}
use skr_crypto.Prelude.{
  ℕ, zero, suc, ◌+◌, ◌-◌, String, Bool, false, ◌&&◌, ◌||◌, Option, none, some, List, [], ◌∷◌,
  length, any, ltb, leb, str_eq, ◌==◌, if◌then◌else◌,
}

abbrev pub max_report_days : ℕ
max_report_days = 366

-- The keys of a record; "" is also a missing text.
pub record Record : Type 0 where
  pub day : Option ℕ
  pub timestamp : String
  pub event : String
  pub wallet : String
  pub to_address : String
  pub amount : Option ℕ
  pub idempotency_key : String
  pub result : String
  pub details : String

pub record DayBucket : Type 0 where
  pub date : ℕ
  pub send_success_count : ℕ
  pub send_success_volume : ℕ
  pub send_rejected_count : ℕ
  pub send_failed_count : ℕ
  pub send_duplicate_count : ℕ
  pub receipt_resolved_success_count : ℕ
  pub receipt_resolved_failure_count : ℕ
  pub unique_recipients : List String
  pub unique_wallets : List String

abbrev pub empty_bucket : ℕ → DayBucket
empty_bucket d = record {
  date = d;
  send_success_count = 0;
  send_success_volume = 0;
  send_rejected_count = 0;
  send_failed_count = 0;
  send_duplicate_count = 0;
  receipt_resolved_success_count = 0;
  receipt_resolved_failure_count = 0;
  unique_recipients = [];
  unique_wallets = [];
}

-- The ValueErrors of `validate_range`.
pub data RangeError : Type 0 where
  reversed too_long : RangeError

unfoldable pub validate_range : ℕ → ℕ → Option RangeError
validate_range from to =
    if ltb to from
    then some reversed
    else if ltb max_report_days (to - from + 1)
    then some too_long
    else none

-- The buckets of `n` days in a row: `_daterange` and the dict's comprehension.
unfoldable pub empty_buckets : ℕ → ℕ → List DayBucket
empty_buckets d zero = []
empty_buckets d (suc n) = empty_bucket d ∷ empty_buckets (d + 1) n

-- `set.add` of a text that is not empty.
unfoldable pub add_text : String → List String → List String
add_text s set = if str_eq s "" || any (λ t. str_eq t s) set then set else s ∷ set

-- `_safe_decimal`
abbrev pub or_zero : Option ℕ → ℕ
or_zero none = 0
or_zero (some n) = n

unfoldable pub is_success : Record → Bool
is_success r = chars_eq (lower (codes r.result)) (codes "success")

-- What one record does to the bucket of its day.
unfoldable pub count_record : Record → DayBucket → DayBucket
unfolding is_success add_text
count_record r b =
    if str_eq r.event "SEND_SUCCESS"
    then record b {
      send_success_count = b.send_success_count + 1;
      send_success_volume = b.send_success_volume + or_zero r.amount;
      unique_recipients = add_text r.to_address b.unique_recipients;
      unique_wallets = add_text r.wallet b.unique_wallets;
    }
    else if str_eq r.event "SEND_REJECTED"
    then record b { send_rejected_count = b.send_rejected_count + 1 }
    else if str_eq r.event "SEND_FAILED"
    then record b { send_failed_count = b.send_failed_count + 1 }
    else if str_eq r.event "SEND_DUPLICATE"
    then record b { send_duplicate_count = b.send_duplicate_count + 1 }
    else if str_eq r.event "RECEIPT_RESOLVED"
    then if is_success r
      then record b { receipt_resolved_success_count = b.receipt_resolved_success_count + 1 }
      else record b { receipt_resolved_failure_count = b.receipt_resolved_failure_count + 1 }
    else b

-- `buckets[d]`, changed in place.
unfoldable pub at_day : ℕ → (DayBucket → DayBucket) → List DayBucket → List DayBucket
at_day d f [] = []
at_day d f (b ∷ bs) = (if b.date == d then f b else b) ∷ at_day d f bs

-- The test at the head of the loop, on a record's date.
unfoldable pub in_range : ℕ → ℕ → Option ℕ → Bool
in_range from to none = false
in_range from to (some d) = leb from d && leb d to

unfoldable pub count_all : ℕ → ℕ → List Record → List DayBucket → List DayBucket
unfolding in_range count_record at_day
count_all from to [] bs = bs
count_all from to (r ∷ rs) bs =
    count_all from to rs
      (if in_range from to r.day then at_day (or_zero r.day) (count_record r) bs else bs)

-- `sum(f(b) for b in buckets)`
unfoldable pub sum : (DayBucket → ℕ) → List DayBucket → ℕ
sum f [] = 0
sum f (b ∷ bs) = f b + sum f bs

-- `set.update`
unfoldable pub add_texts : List String → List String → List String
unfolding add_text
add_texts [] set = set
add_texts (s ∷ ss) set = add_texts ss (add_text s set)

unfoldable pub union : (DayBucket → List String) → List DayBucket → List String → List String
unfolding add_texts
union f [] set = set
union f (b ∷ bs) set = union f bs (add_texts (f b) set)

pub record PeriodSummary : Type 0 where
  pub from_date : ℕ
  pub to_date : ℕ
  pub buckets : List DayBucket
  pub total_send_success_count : ℕ
  pub total_send_success_volume : ℕ
  pub total_send_rejected_count : ℕ
  pub total_send_failed_count : ℕ
  pub total_send_duplicate_count : ℕ
  pub total_receipt_resolved_success_count : ℕ
  pub total_receipt_resolved_failure_count : ℕ
  pub total_unique_recipients : ℕ
  pub total_unique_wallets : ℕ

unfoldable pub summarise : ℕ → ℕ → List DayBucket → PeriodSummary
unfolding sum union
summarise from to bs = record {
  from_date = from;
  to_date = to;
  buckets = bs;
  total_send_success_count = sum (λ b. b.send_success_count) bs;
  total_send_success_volume = sum (λ b. b.send_success_volume) bs;
  total_send_rejected_count = sum (λ b. b.send_rejected_count) bs;
  total_send_failed_count = sum (λ b. b.send_failed_count) bs;
  total_send_duplicate_count = sum (λ b. b.send_duplicate_count) bs;
  total_receipt_resolved_success_count = sum (λ b. b.receipt_resolved_success_count) bs;
  total_receipt_resolved_failure_count = sum (λ b. b.receipt_resolved_failure_count) bs;
  total_unique_recipients = length (union (λ b. b.unique_recipients) bs []);
  total_unique_wallets = length (union (λ b. b.unique_wallets) bs []);
}

pub data Report : Type 0 where
  summary : PeriodSummary → Report
  range_error : RangeError → Report

unfoldable pub aggregate_period : ℕ → ℕ → List Record → Report
unfolding validate_range empty_buckets count_all summarise
aggregate_period from to rs = elim (validate_range from to) [
  | some e ↦ range_error e
  | none ↦ summary (summarise from to (count_all from to rs (empty_buckets from (to - from + 1))))
]

-- The filter of `list_sanctions_hits`.
unfoldable pub is_hit : ℕ → ℕ → Record → Bool
is_hit from to r =
    str_eq r.event "SEND_REJECTED" && mentions_lower "sanctions" r.details && in_range from to r.day

-- Every SEND_REJECTED record of the period with a sanctions match, in the order of the log; the sort
-- by the text of the time stamp follows.
unfoldable pub sanctions_hits : ℕ → ℕ → List Record → List Record
unfolding is_hit
sanctions_hits from to [] = []
sanctions_hits from to (r ∷ rs) =
    let rest = sanctions_hits from to rs in if is_hit from to r then r ∷ rest else rest

pub record Sparkline : Type 0 where
  pub dates : List ℕ
  pub volumes : List ℕ
  pub successes : List ℕ
  pub rejections : List ℕ

each : (DayBucket → ℕ) → List DayBucket → List ℕ
each f [] = []
each f (b ∷ bs) = f b ∷ each f bs

unfoldable pub sparkline_series : PeriodSummary → Sparkline
unfolding each
sparkline_series s = record {
  dates = each (λ b. b.date) s.buckets;
  volumes = each (λ b. b.send_success_volume) s.buckets;
  successes = each (λ b. b.send_success_count) s.buckets;
  rejections = each (λ b. b.send_rejected_count) s.buckets;
}
