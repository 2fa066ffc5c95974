-- ===== src/Receipts/Tests.antt =====
-- Ticks on a concrete table.
use skr_crypto.Exceptions.{returned}
use skr_crypto.Audit
use skr_crypto.Audit.{Disk, write_error, write}
use skr_crypto.Idempotency.Sqlite
use skr_crypto.Idempotency.Sqlite.{Db, Row}
use skr_crypto.Prelude.Dict.{lookup}
use skr_crypto.Prelude.Text.{codes}
use skr_crypto.Receipts.Classify
use skr_crypto.Receipts.Classify.{other, is_terminal, Info, missing, number, classify_receipt}
use skr_crypto.Receipts.Poller.{
  State, Settings, Candidate, Probe, candidate, next_candidates, verdict, receipt_fields, poll_one,
}
use skr_crypto.Receipts.Counting.{resolved, receipts}
use skr_crypto.Receipts.Runs.{Action, tick_at, run, recorded_once, lost_record}
use skr_crypto.Receipts.Fairness.{Among, CheckedBy, next_candidates-oldest}
use skr_crypto.Prelude.{
  ◌≤◌, true, false, Option, none, some, List, [], ◌∷◌, length, ◌≡◌, ◌⊎◌, refl, arith, if◌then◌else◌,
}

abbrev settings : Settings
settings = record { lookback = 86400; batch = 1; giveup = 7200 }

abbrev row : Row
row = record {
  txid = "ab12";
  status = Sqlite.committed;
  process_id = "p1";
  created_at = 100;
  updated_at = 101;
}

abbrev db : Db
db = record { is_open = true; process_id = "p1"; rows = ("order-1", row) ∷ [] }

abbrev log : Audit.State
log = record {
  seq = 0;
  logged = [];
  durable = [];
  file_open = true;
  open_failed = false;
  configured = true;
}

abbrev start : State
start = record { table = []; audit = log }

abbrev working : Disk
working = record { opens = true; writes = true }

abbrev full : Disk
full = record { opens = true; writes = false }

abbrev in_block : Info
in_block = record { block_number = number 77; block_number_alt = missing; result = none }

abbrev out_of_memory : Info
out_of_memory = record {
  block_number = number 77;
  block_number_alt = missing;
  result = some "OUT_OF_MEMORY";
}

abbrev probe : Option Info → Disk → Probe
probe info disk = record { stopped = false; now = 9000; info = returned info; disk = disk }

abbrev cand : Candidate
cand = record { txid = "ab12"; idempotency_key = "order-1"; first_seen = none; last_checked = 0 }

abbrev acts : List Action
acts =
    tick_at 9000 (λ n. probe (some in_block) working) db
    ∷ tick_at 9060 (λ n. probe (some in_block) working) db
    ∷ []

recorded_once_example :
    receipts "ab12" (run settings acts start).audit.logged
    ≤ (if resolved "ab12" (run settings acts start) then 1 else 0)
unfolding skr_crypto.Receipts.Counting.commits receipts
recorded_once_example =
    recorded_once settings "ab12" acts start (tt, (tt, tt)) (omega arith, (omega arith, tt)) refl

abbrev polled : Disk → State
polled disk = poll_one settings cand (probe (some in_block) disk) start

polled-resolved : resolved "ab12" (polled working) ≡ true
unfolding lookup poll_one skr_crypto.Receipts.Poller.upsert skr_crypto.Prelude.Dict.insert
    skr_crypto.Receipts.Poller.poll_record verdict classify_receipt
polled-resolved = refl

full_disk :
    (write full
      (receipt_fields cand (verdict settings cand (probe (some in_block) full)).status)
      log).0
    ≡ write_error
unfolding write
full_disk = refl

in_block_terminal : is_terminal (verdict settings cand (probe (some in_block) full)).status ≡ true
unfolding verdict classify_receipt
in_block_terminal = refl

lost_record_example : receipts "ab12" (run settings acts (polled full)).audit.durable ≡ 0
unfolding receipts
lost_record_example =
    lost_record settings cand (probe (some in_block) full) start acts in_block_terminal full_disk
      (tt, (tt, tt))

memory_code :
    (classify_receipt (returned (some out_of_memory))).status ≡ other (codes "OUT_OF_MEMORY")
unfolding classify_receipt
memory_code = refl

unknown_yet : (classify_receipt (returned none)).status ≡ Classify.not_found
unfolding classify_receipt
unknown_yet = refl

next_candidates-oldest_example :
    Among (candidate "order-1" row none) (next_candidates settings 9000 db [])
    ⊎ ((length (next_candidates settings 9000 db []) ≡ 1)
        × CheckedBy
            (candidate "order-1" row none).last_checked
            (next_candidates settings 9000 db []))
unfolding lookup skr_crypto.Receipts.Poller.is_candidate
next_candidates-oldest_example = next_candidates-oldest settings 9000 db [] "order-1" row refl refl
