-- ===== src/Reports/Tests.antt =====
-- A short audit log and its report.
use skr_crypto.Reports.{
  Record, PeriodSummary, summary, range_error, too_long, summarise, count_all, empty_buckets,
  aggregate_period, sanctions_hits, sparkline_series,
}
use skr_crypto.Reports.Totals.{
  tally, of_event, volume, receipts_ok, receipts_failed, aggregate_period-totals,
}
use skr_crypto.Prelude.Text.{codes}
use skr_crypto.Prelude.{ℕ, String, ◌≡◌, some, none, Option, List, [], ◌∷◌, length, refl}

entry : String → Option ℕ → String → Option ℕ → Record
entry event day to_address amount = record {
  day = day;
  timestamp = "";
  event = event;
  wallet = "hot";
  to_address = to_address;
  amount = amount;
  idempotency_key = "";
  result = "SUCCESS";
  details = "failed=sanctions";
}

abbrev log : List Record
unfolding entry
log =
    entry "SEND_SUCCESS" (some 10) "T1" (some 5)
    ∷ entry "SEND_SUCCESS" (some 11) "T1" (some 7)
    ∷ entry "SEND_SUCCESS" (some 13) "T1" (some 9)
    ∷ entry "SEND_REJECTED" (some 11) "T2" none
    ∷ entry "RECEIPT_RESOLVED" (some 10) "" none
    ∷ entry "STARTUP_CHECK" none "" none
    ∷ []

abbrev made : PeriodSummary
made = summarise 10 12 (count_all 10 12 log (empty_buckets 10 3))

log_summary : aggregate_period 10 12 log ≡ summary made
unfolding aggregate_period
log_summary = refl

totals :
    (made.total_send_success_count ≡ 2)
    × (made.total_send_success_volume ≡ 12)
    × (made.total_unique_recipients ≡ 1)
    × (made.total_receipt_resolved_success_count ≡ 1)
unfolding summarise count_all empty_buckets codes log skr_crypto.Prelude.Chars.chars_eq
    skr_crypto.Prelude.Text.lower
totals = (refl, refl, refl, refl)

line_of_days : (sparkline_series made).volumes ≡ 5 ∷ 7 ∷ 0 ∷ []
unfolding sparkline_series summarise count_all empty_buckets codes log
    skr_crypto.Prelude.Chars.chars_eq skr_crypto.Prelude.Text.lower
line_of_days = refl

one_hit : length (sanctions_hits 10 12 log) ≡ 1
unfolding sanctions_hits codes log skr_crypto.Prelude.Text.mentions_lower
    skr_crypto.Reports.in_range
one_hit = refl

too_many_days : aggregate_period 0 366 [] ≡ range_error too_long
unfolding aggregate_period
too_many_days = refl

aggregate_period-totals_example :
    (made.total_send_success_count ≡ tally 10 12 (of_event "SEND_SUCCESS") log)
    × (made.total_send_success_volume ≡ tally 10 12 volume log)
    × (made.total_send_rejected_count ≡ tally 10 12 (of_event "SEND_REJECTED") log)
    × (made.total_send_failed_count ≡ tally 10 12 (of_event "SEND_FAILED") log)
    × (made.total_send_duplicate_count ≡ tally 10 12 (of_event "SEND_DUPLICATE") log)
    × (made.total_receipt_resolved_success_count ≡ tally 10 12 receipts_ok log)
    × (made.total_receipt_resolved_failure_count ≡ tally 10 12 receipts_failed log)
aggregate_period-totals_example = aggregate_period-totals 10 12 log made log_summary
