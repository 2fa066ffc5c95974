-- ===== src/Receipts/Counting.antt =====
-- How often a txid is recorded, committed, and among the candidates of a tick.

use skr_crypto.Audit.{Entry, Event, receipt_resolved}
use skr_crypto.Idempotency.Sqlite.{Db, Row}
use skr_crypto.Prelude.Dict.{Dict, lookup}
use skr_crypto.Receipts.Poller.{
  TxStatus, State, Settings, Candidate, is_resolved, is_committed, candidate, select,
  insert_checked, sort_checked, next_candidates,
}
use skr_crypto.Prelude.{
  ℕ, zero, suc, ◌+◌, ◌≤◌, String, Bool, true, false, ◌&&◌, List, [], ◌∷◌, ◌≡◌, refl, arith, take,
  str_eq, eq_iff, if◌then◌else◌,
}

abbrev pub resolved : String → State → Bool
resolved t s = is_resolved (lookup t s.table)

abbrev pub is_receipt : Event → Bool
is_receipt receipt_resolved = true
is_receipt _ = false

-- The number of RECEIPT_RESOLVED records for a txid.
unfoldable pub receipts : String → List Entry → ℕ
receipts t [] = 0
receipts t (e ∷ es) =
    (if str_eq e.fields.txid t && is_receipt e.fields.event then 1 else 0) + receipts t es

-- How often a txid is among the candidates, and among the committed rows.
unfoldable pub listed : String → List Candidate → ℕ
listed t [] = 0
listed t (c ∷ cs) = (if str_eq c.txid t then 1 else 0) + listed t cs

unfoldable pub commits : String → Dict Row → ℕ
commits t [] = 0
commits t ((key, row) ∷ rows) =
    (if is_committed row.status && str_eq row.txid t then 1 else 0) + commits t rows

listed-insert_checked :
    (t : String) (c : Candidate) (cs : List Candidate)
    → listed t (insert_checked c cs) ≡ listed t (c ∷ cs)
unfolding listed insert_checked
listed-insert_checked t c [] = refl
listed-insert_checked t c (d ∷ ds) = ground (arith, listed-insert_checked t c ds)

listed-sort_checked : (t : String) (cs : List Candidate) → listed t (sort_checked cs) ≡ listed t cs
unfolding listed sort_checked
listed-sort_checked t [] = refl
listed-sort_checked t (c ∷ cs) =
    omega (arith, listed-insert_checked t c (sort_checked cs), listed-sort_checked t cs)

listed-take : (t : String) (n : ℕ) (cs : List Candidate) → listed t (take n cs) ≤ listed t cs
unfolding listed
listed-take t zero cs = omega arith
listed-take t (suc n) [] = omega arith
listed-take t (suc n) (c ∷ cs) = omega (arith, listed-take t n cs)

-- A resolved txid is not selected, another one at most as often as it is committed.
listed-select :
    (cfg : Settings) (now : ℕ) (t : String) (table : Dict TxStatus) (rows : Dict Row)
    → listed t (select cfg now table rows)
      ≤ (if is_resolved (lookup t table) then 0 else commits t rows)
unfolding listed select candidate commits
listed-select cfg now t table [] = ground arith
listed-select cfg now t table ((key, row) ∷ rows) =
    ground (arith, listed-select cfg now t table rows, eq_iff row.txid t)

pub listed-next_candidates :
    (cfg : Settings) (now : ℕ) (t : String) (db : Db) (table : Dict TxStatus)
    → listed t (next_candidates cfg now db table)
      ≤ (if is_resolved (lookup t table) then 0 else commits t db.rows)
unfolding next_candidates
listed-next_candidates cfg now t db table = omega (
  arith,
  listed-take t cfg.batch (sort_checked (select cfg now table db.rows)),
  listed-sort_checked t (select cfg now table db.rows),
  listed-select cfg now t table db.rows,
)
