-- ===== src/Receipts/Poller.antt =====
-- The table tx_status, `_next_candidates_sqlite`, `_upsert`, `_poll_one` and `_tick` of
-- skr_crypto/server/receipt_poller.py.
use skr_crypto.Exceptions.{Reply}
use skr_crypto.Audit
use skr_crypto.Audit.{Disk, Fields, receipt_resolved}
use skr_crypto.Idempotency.Sqlite
use skr_crypto.Idempotency.Sqlite.{Db, Row}
use skr_crypto.Prelude.Dict.{Dict, lookup, insert}
use skr_crypto.Receipts.Classify.{
  Status, not_found, giveup, is_terminal, Info, PollError, gave_up, Verdict, classify_receipt,
}
use skr_crypto.Receipts.Classify
use skr_crypto.Prelude.{
  ℕ, zero, suc, ◌+◌, ◌-◌, String, Bool, true, false, ◌&&◌, not, Option, none, some, List, [], ◌∷◌,
  take, leb, if◌then◌else◌,
}

-- A row of tx_status without its key, the txid.
pub record TxStatus : Type 0 where
  pub idempotency_key : String
  pub first_seen : ℕ
  pub last_checked : Option ℕ
  pub status : Option Status
  pub block_number : Option ℕ
  pub last_error : Option PollError
  pub resolved_at : Option ℕ

-- The table, and the audit log that the poller shares with the rest of the program.
pub record State : Type 0 where
  pub table : Dict TxStatus
  pub audit : Audit.State

-- `_lookback` and `_giveup`, both in seconds, and `_batch`.
pub record Settings : Type 0 where
  pub lookback : ℕ
  pub batch : ℕ
  pub giveup : ℕ

pub record Candidate : Type 0 where
  pub txid : String
  pub idempotency_key : String
  pub first_seen : Option ℕ
  pub last_checked : ℕ

abbrev pub is_resolved : Option TxStatus → Bool
is_resolved none = false
is_resolved (some s) = elim s.resolved_at [ none ↦ false | some t ↦ true ]

checked_at : Option TxStatus → ℕ
checked_at none = 0
checked_at (some s) = elim s.last_checked [ none ↦ 0 | some t ↦ t ]

seen_at : Option TxStatus → Option ℕ
seen_at none = none
seen_at (some s) = some s.first_seen

-- The joined row of a key; `last_checked` is `COALESCE(s.last_checked, 0)`.
unfoldable pub candidate : String → Row → Option TxStatus → Candidate
unfolding checked_at seen_at
candidate key row s = record {
  txid = row.txid;
  idempotency_key = key;
  first_seen = seen_at s;
  last_checked = checked_at s;
}

abbrev pub is_committed : Sqlite.Status → Bool
is_committed Sqlite.committed = true
is_committed _ = false

-- The WHERE clause.
unfoldable pub is_candidate : Settings → ℕ → Row → Option TxStatus → Bool
is_candidate cfg now row s =
    is_committed row.status && leb now (row.created_at + cfg.lookback) && not (is_resolved s)

unfoldable pub select : Settings → ℕ → Dict TxStatus → Dict Row → List Candidate
unfolding is_candidate
select cfg now table [] = []
select cfg now table ((key, row) ∷ rows) =
    let rest = select cfg now table rows in
    let s = lookup row.txid table in
    if is_candidate cfg now row s then candidate key row s ∷ rest else rest

-- The ORDER BY clause; SQL leaves the order of equal times open, here it is that of the table.
unfoldable pub insert_checked : Candidate → List Candidate → List Candidate
insert_checked c [] = c ∷ []
insert_checked c (d ∷ ds) =
    let rest = insert_checked c ds in
    if leb c.last_checked d.last_checked then c ∷ d ∷ ds else d ∷ rest

unfoldable pub sort_checked : List Candidate → List Candidate
unfolding insert_checked
sort_checked [] = []
sort_checked (c ∷ cs) = insert_checked c (sort_checked cs)

unfoldable pub next_candidates : Settings → ℕ → Db → Dict TxStatus → List Candidate
next_candidates cfg now db table = take cfg.batch (sort_checked (select cfg now table db.rows))

-- `ON CONFLICT(txid) DO UPDATE`: the key and `first_seen` stay.
unfoldable pub merge : Option TxStatus → TxStatus → TxStatus
merge none rec = rec
merge (some old) rec = record rec {
  idempotency_key = old.idempotency_key;
  first_seen = old.first_seen;
}

unfoldable pub upsert : String → TxStatus → Dict TxStatus → Dict TxStatus
unfolding merge
upsert txid rec table = insert txid (merge (lookup txid table) rec) table

-- What one candidate meets: `_stop_event`, the clock, the node's answer, and the audit file.
pub record Probe : Type 0 where
  pub stopped : Bool
  pub now : ℕ
  pub info : Reply (Option Info)
  pub disk : Disk

-- `cand.get("first_seen") or now`
unfoldable pub first_seen_or : ℕ → Option ℕ → ℕ
first_seen_or now none = now
first_seen_or now (some zero) = now
first_seen_or now (some (suc n)) = n + 1

-- NOT_FOUND beyond the threshold.
unfoldable pub give_up : Settings → ℕ → ℕ → Verdict → Verdict
give_up cfg now first_seen v = elim v.status [
  | not_found ↦
      if leb (first_seen + cfg.giveup) now
      then record v { status = giveup; error = some gave_up }
      else v
  | _ ↦ v
]

unfoldable pub verdict : Settings → Candidate → Probe → Verdict
unfolding give_up
verdict cfg cand p =
    give_up cfg p.now (first_seen_or p.now cand.first_seen) (classify_receipt p.info)

unfoldable pub poll_record : Settings → Candidate → Probe → TxStatus
poll_record cfg cand p =
    let v = verdict cfg cand p in
    record {
      idempotency_key = cand.idempotency_key;
      first_seen = first_seen_or p.now cand.first_seen;
      last_checked = some p.now;
      status = if is_terminal v.status then some v.status else none;
      block_number = v.block;
      last_error = v.error;
      resolved_at = if is_terminal v.status then some p.now else none;
    }

-- `status.lower()`, of a terminal status.
result_text : Status → String
result_text Classify.success = "success"
result_text Classify.out_of_energy = "out_of_energy"
result_text Classify.revert = "revert"
result_text Classify.bad_jump_destination = "bad_jump_destination"
result_text Classify.out_of_time = "out_of_time"
result_text Classify.stack_too_small = "stack_too_small"
result_text Classify.stack_too_large = "stack_too_large"
result_text Classify.illegal_operation = "illegal_operation"
result_text Classify.stack_overflow = "stack_overflow"
result_text Classify.jvm_stack_over_flow = "jvm_stack_over_flow"
result_text Classify.transfer_failed = "transfer_failed"
result_text Classify.unknown = "unknown"
result_text Classify.giveup = "giveup"
result_text _ = ""

-- `_emit_receipt_audit`: an exception of the audit log is logged and dropped.
unfoldable pub receipt_fields : Candidate → Status → Fields
unfolding result_text
receipt_fields cand status = record {
  event = receipt_resolved;
  wallet = "";
  to_address = "";
  txid = cand.txid;
  idempotency_key = cand.idempotency_key;
  result = result_text status;
}

unfoldable pub poll_one : Settings → Candidate → Probe → State → State
poll_one cfg cand p s =
    let v = verdict cfg cand p in
    let table = upsert cand.txid (poll_record cfg cand p) s.table in
    record {
      table = table;
      audit =
          if is_terminal v.status
          then (Audit.write p.disk (receipt_fields cand v.status) s.audit).1
          else s.audit;
    }

-- The loop of `_tick`; the n-th candidate meets the n-th probe.
unfoldable pub poll_all : Settings → (ℕ → Probe) → List Candidate → State → State
poll_all cfg probes [] s = s
poll_all cfg probes (c ∷ cs) s =
    let s' = poll_one cfg c (probes 0) s in
    let rest = poll_all cfg (λ n. probes (n + 1)) cs s' in if (probes 0).stopped then s else rest

unfoldable pub tick : Settings → ℕ → (ℕ → Probe) → Db → State → State
tick cfg now probes db s = poll_all cfg probes (next_candidates cfg now db s.table) s

unfoldable pub get_status : String → State → Option TxStatus
get_status txid s = lookup txid s.table

-- The SELECT of `lag_seconds`: the earliest unresolved commit.
unfoldable pub oldest : Dict TxStatus → Dict Row → Option ℕ
oldest table [] = none
oldest table ((key, row) ∷ rows) =
    let rest = oldest table rows in
    if is_committed row.status && not (is_resolved (lookup row.txid table))
    then elim rest [
      | none ↦ some row.created_at
      | some t ↦ if leb row.created_at t then some row.created_at else some t
    ]
    else rest

unfoldable pub lag_seconds : ℕ → Db → State → ℕ
unfolding oldest
lag_seconds now db s = elim (oldest s.table db.rows) [ none ↦ 0 | some t ↦ now - t ]
