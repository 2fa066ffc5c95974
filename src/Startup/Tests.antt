-- ===== src/Startup/Tests.antt =====
-- The check at the start on a short audit log.
use skr_crypto.Exceptions.{Reply, returned, raised}
use skr_crypto.Startup.{
  Record, Info, receipt, verify_txid_on_chain, run_startup_check, successes, sent_to, is_relevant,
}
use skr_crypto.Startup.Verdict.{run_startup_check-ok}
use skr_crypto.Prelude.{
  ℕ, ◌≤◌, String, true, false, some, List, [], ◌∷◌, ◌≡◌, inl, inr, refl, str_eq, if◌then◌else◌,
}

entry : String → ℕ → String → String → Record
entry event at txid to_address = record {
  event = event;
  timestamp = some at;
  txid = txid;
  to_address = to_address;
}

abbrev paid : Record
unfolding entry
paid = entry "SEND_SUCCESS" 12 "a1" "T1"

-- One send of the day before, and a repeated line.
abbrev log : List Record
unfolding entry
log =
    entry "SEND_SUCCESS" 3 "a0" "T1"
    ∷ paid
    ∷ entry "SEND_FAILED" 13 "" "T1"
    ∷ paid
    ∷ entry "SEND_SUCCESS" 14 "a2" "T2"
    ∷ []

abbrev all_fine : String → Reply Info
all_fine t = returned (receipt "")

abbrev one_reverted : String → Reply Info
one_reverted t = if str_eq t "a2" then returned (receipt "REVERT") else returned (receipt "")

lost :
    verify_txid_on_chain (raised (record { class_name = "TransactionNotFound"; text = "" }))
    ≡ "NOT_FOUND"
unfolding verify_txid_on_chain skr_crypto.Prelude.Text.mentions_lower
lost = refl

log_ok : run_startup_check 10 all_fine log ≡ some (record { checked = 2; is_ok = true })
unfolding run_startup_check entry
log_ok = refl

log_reverted : run_startup_check 10 one_reverted log ≡ some (record { checked = 2; is_ok = false })
unfolding run_startup_check entry
log_reverted = refl

-- With the day before, one recipient has two payments.
log_twice : run_startup_check 1 all_fine log ≡ some (record { checked = 3; is_ok = false })
unfolding run_startup_check entry
log_twice = refl

run_startup_check-ok_example :
    (verify_txid_on_chain (all_fine "a1") ≡ "SUCCESS") × (sent_to "T1" (successes 10 log) ≤ 1)
unfolding entry is_relevant
run_startup_check-ok_example =
    run_startup_check-ok 10 all_fine log (record { checked = 2; is_ok = true }) paid "T1" log_ok
      refl (inr (inl refl)) refl refl
