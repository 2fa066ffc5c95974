-- ===== src/Receipts/Runs.antt =====
-- Any number of ticks, between other records of the program.

use skr_crypto.Audit.{Disk, Fields, write_error, get_audit_file, write, write_durable}
use skr_crypto.Idempotency.Sqlite.{Db}
use skr_crypto.Prelude.Dict.{lookup}
use skr_crypto.Receipts.Classify.{is_terminal, is_retry, other, not_found, classify_receipt}
use skr_crypto.Receipts.Poller.{
  State, Settings, Candidate, Probe, is_resolved, next_candidates, first_seen_or, give_up, verdict,
  poll_record, receipt_fields, poll_one, tick,
}
use skr_crypto.Receipts.Counting.{resolved, is_receipt, receipts, commits, listed-next_candidates}
use skr_crypto.Receipts.Resolution.{
  OnceAtMost, poll_all-OnceAtMost, poll_all-silent, write-durable, is_resolved-upsert,
  is_resolved-poll_record,
}
use skr_crypto.Prelude.{
  ℕ, ◌+◌, ◌≤◌, String, true, false, List, [], ◌∷◌, ◌≡◌, ◌↔◌, ◌∙◌, refl, ap, arith, eq_refl,
  if◌then◌else◌,
}

-- A tick on the idempotency table of that time, or a record of another part of the program.
pub data Action : Type 0 where
  tick_at : ℕ → (ℕ → Probe) → Db → Action
  record_other : Disk → Fields → Action

step : Settings → Action → State → State
step cfg (tick_at now probes db) s = tick cfg now probes db s
step cfg (record_other disk fields) s = record s { audit = (write disk fields s.audit).1 }

unfoldable pub run : Settings → List Action → State → State
unfolding step
run cfg [] s = s
run cfg (a ∷ acts) s = run cfg acts (step cfg a s)

-- Nobody else writes RECEIPT_RESOLVED.
abbrev OthersOnly : Action → Type 0
OthersOnly (tick_at now probes db) = Unit {0}
OthersOnly (record_other disk fields) = is_receipt fields.event ≡ false

abbrev pub AllOthers : List Action → Type 0
AllOthers [] = Unit {0}
AllOthers (a ∷ acts) = OthersOnly a × AllOthers acts

-- The txid `t` is committed for one key at most.
abbrev CommitsOnce : String → Action → Type 0
CommitsOnce t (tick_at now probes db) = commits t db.rows ≤ 1
CommitsOnce t (record_other disk fields) = Unit {0}

abbrev pub AllCommitOnce : String → List Action → Type 0
AllCommitOnce t [] = Unit {0}
AllCommitOnce t (a ∷ acts) = CommitsOnce t a × AllCommitOnce t acts

step-OnceAtMost :
    (cfg : Settings) (t : String) (a : Action) (s : State)
    → OthersOnly a
    → CommitsOnce t a
    → OnceAtMost t s
    → OnceAtMost t (step cfg a s)
unfolding step tick
step-OnceAtMost cfg t (record_other disk fields) s h c v =
    ground (arith, write-durable t disk fields s.audit)
step-OnceAtMost cfg t (tick_at now probes db) s h c v =
    poll_all-OnceAtMost cfg t probes (next_candidates cfg now db s.table) s
      (ground (arith, listed-next_candidates cfg now t db s.table)) v

run-OnceAtMost :
    (cfg : Settings) (t : String) (acts : List Action) (s : State)
    → AllOthers acts
    → AllCommitOnce t acts
    → OnceAtMost t s
    → OnceAtMost t (run cfg acts s)
unfolding run
run-OnceAtMost cfg t [] s h c v = v
run-OnceAtMost cfg t (a ∷ acts) s h c v =
    run-OnceAtMost cfg t acts (step cfg a s) h.1 c.1 (step-OnceAtMost cfg t a s h.0 c.0 v)

-- Over any number of ticks the operational log gets at most one RECEIPT_RESOLVED record for a txid
-- that is committed for one key, and none before its row is resolved.
pub recorded_once :
    (cfg : Settings) (t : String) (acts : List Action) (s : State)
    → AllOthers acts
    → AllCommitOnce t acts
    → receipts t s.audit.logged ≡ 0
    → receipts t (run cfg acts s).audit.logged ≤ (if resolved t (run cfg acts s) then 1 else 0)
recorded_once cfg t acts s h c v = run-OnceAtMost cfg t acts s h c (ground arith)

abbrev pub Silent : String → State → State → Type 0
Silent t s s' =
    (lookup t s'.table ≡ lookup t s.table)
    × (receipts t s'.audit.logged ≡ receipts t s.audit.logged)
    × (receipts t s'.audit.durable ≡ receipts t s.audit.durable)

step-Silent :
    (cfg : Settings) (t : String) (a : Action) (s : State)
    → OthersOnly a
    → resolved t s ≡ true
    → Silent t s (step cfg a s)
unfolding step tick
step-Silent cfg t (record_other disk fields) s h r =
    let w = write-durable t disk fields s.audit (ground arith) in (refl, w.0, w.1)
step-Silent cfg t (tick_at now probes db) s h r =
    poll_all-silent cfg t probes (next_candidates cfg now db s.table) s
      (ground (arith, listed-next_candidates cfg now t db s.table))

-- Once a row is resolved, no later tick changes it or writes another RECEIPT_RESOLVED record for it, in
-- either log.
resolved_final :
    (cfg : Settings) (t : String) (acts : List Action) (s : State)
    → AllOthers acts
    → resolved t s ≡ true
    → Silent t s (run cfg acts s)
unfolding run
resolved_final cfg t [] s h r = (refl, refl, refl)
resolved_final cfg t (a ∷ acts) s h r =
    let p = step-Silent cfg t a s h.0 r in
    let q = resolved_final cfg t acts (step cfg a s) h.1 (ap is_resolved p.0 ∙ r) in
    (q.0 ∙ p.0, q.1 ∙ p.1, q.2 ∙ p.2)

-- A poll with a terminal verdict whose audit record cannot be written to the file resolves the row all
-- the same, so no later tick writes the record: the file never gets it.
pub lost_record :
    (cfg : Settings) (c : Candidate) (p : Probe) (s : State) (acts : List Action)
    → is_terminal (verdict cfg c p).status ≡ true
    → (write p.disk (receipt_fields c (verdict cfg c p).status) s.audit).0 ≡ write_error
    → AllOthers acts
    → receipts c.txid (run cfg acts (poll_one cfg c p s)).audit.durable
      ≡ receipts c.txid s.audit.durable
unfolding poll_one write write_durable get_audit_file
lost_record cfg c p s acts e w h =
    let s' = poll_one cfg c p s in
    let r : resolved c.txid s' ≡ true =
      is_resolved-upsert c.txid c.txid (poll_record cfg c p) s.table
      ∙ rw (eq_refl c.txid) (is_resolved-poll_record cfg c p ∙ e) in
    (resolved_final cfg c.txid acts s' h r).2 ∙ ground arith

-- A code of the node that is in neither list is not to be retried, and yet its row stays open.
unlisted_code :
    (cfg : Settings) (c : Candidate) (p : Probe) (s : State) (text : List ℕ)
    → (classify_receipt p.info).status ≡ other text
    → (is_retry (classify_receipt p.info).status ≡ false)
      × (resolved c.txid (poll_one cfg c p s) ≡ false)
unfolding poll_one verdict give_up
unlisted_code cfg c p s text e =
    let v : is_terminal (verdict cfg c p).status ≡ false = ground arith in
    (
      rw e refl,
      is_resolved-upsert c.txid c.txid (poll_record cfg c p) s.table
          ∙ rw (eq_refl c.txid) (is_resolved-poll_record cfg c p ∙ v),
    )

-- A transaction that the node does not know is given up, and its row resolved, once it was first seen
-- long enough ago; until then the row stays open.
not_found_ends :
    (cfg : Settings) (c : Candidate) (p : Probe) (s : State)
    → (classify_receipt p.info).status ≡ not_found
    → (resolved c.txid (poll_one cfg c p s) ≡ true)
      ↔ (first_seen_or p.now c.first_seen + cfg.giveup ≤ p.now)
unfolding poll_one verdict give_up
not_found_ends cfg c p s e =
    let r : resolved c.txid (poll_one cfg c p s) ≡ is_terminal (verdict cfg c p).status =
      is_resolved-upsert c.txid c.txid (poll_record cfg c p) s.table
      ∙ rw (eq_refl c.txid) (is_resolved-poll_record cfg c p) in
    (λ h. ground (arith, r), λ h. ground (arith, r))
