-- ===== src/Idempotency/Sqlite.antt =====
-- `SqliteIdempotencyStore` of skr_crypto/server/idempotency.py. The table is keyed by its primary
-- key; each statement under the lock is one change of it, and what was committed survives a crash
-- (SQLite's WAL with synchronous=FULL). Times are clock readings. What the database raises beside
-- IntegrityError is left to the caller: it is a `Fault` of the calls in Send/Handler.
pub mod Contract
use skr_crypto.Prelude.{
  ℕ, zero, suc, ◌+◌, String, Bool, Option, none, some, [], ◌∷◌, true, false, length, if◌then◌else◌,
}
use skr_crypto.Prelude.Dict.{Dict, lookup, insert, erase, map_values}
use skr_crypto.Idempotency.{
  is_real, Phase, Answer, Ack, free, in_flight, unresolved, claimed, busy, closed, duplicate, done,
  invalid_txid, not_open,
}

-- `_STATUS_PENDING`, `_STATUS_COMMITTED`, `_STATUS_UNKNOWN`
pub data Status : Type 0 where
  pending committed unknown : Status

-- A row of the table `idempotency`, without its key.
pub record Row : Type 0 where
  pub txid : String
  pub status : Status
  pub process_id : String
  pub created_at : ℕ
  pub updated_at : ℕ

-- The object: `_conn is not None`, `_process_id`, and the table.
pub record Db : Type 0 where
  pub is_open : Bool
  pub process_id : String
  pub rows : Dict Row

status_phase : Status → String → Phase
status_phase pending txid = in_flight
status_phase committed txid = Phase.committed txid
status_phase unknown txid = unresolved

pub row_phase : Option Row → Phase
unfolding status_phase
row_phase none = free
row_phase (some r) = status_phase r.status r.txid

unfoldable pub phase : Db → String → Phase
unfolding row_phase
phase db key = row_phase (lookup key db.rows)

-- The INSERT; `none` is `sqlite3.IntegrityError`, the primary key is taken.
insert_row : String → Row → Dict Row → Option (Dict Row)
insert_row key r rows = elim (lookup key rows) [ none ↦ some (insert key r rows) | some _ ↦ none ]

reserve_row : String → ℕ → Status → Db → Answer × Db
reserve_row txid created_at committed db = (duplicate txid, db)
reserve_row txid created_at unknown db = (Answer.unknown, db)
reserve_row txid created_at pending db = (busy, db)

claimed_row : ℕ → Db → Row
claimed_row now db = record {
  txid = "";
  status = pending;
  process_id = db.process_id;
  created_at = now;
  updated_at = now;
}

-- One pass of the loop up to its wait; `none` is the `continue` after an IntegrityError.
pub attempt : ℕ → String → Option Row → Db → Option (Answer × Db)
unfolding insert_row reserve_row claimed_row
attempt now key none db = elim (insert_row key (claimed_row now db) db.rows) [
  | none ↦ none
  | some rows ↦ some (claimed, record db { rows = rows })
]
attempt now key (some r) db = some (reserve_row r.txid r.created_at r.status db)

-- The `continue`s, on fuel. One pass is enough, by `attempt-ne-none`.
reserve_from : ℕ → ℕ → String → Db → Answer × Db
reserve_from zero now key db = (busy, db)
reserve_from (suc fuel) now key db = elim (attempt now key (lookup key db.rows) db) [
  | none ↦ reserve_from fuel now key db
  | some r ↦ r
]

unfoldable pub reserve : ℕ → String → Db → Answer × Db
unfolding reserve_from attempt
reserve now key db = if db.is_open then reserve_from 1 now key db else (closed, db)

pub committed_row : ℕ → String → Row → Row
committed_row now txid r = record r { txid = txid; status = committed; updated_at = now }

commit_row : ℕ → String → Option Row → String → Db → Db
unfolding committed_row
commit_row now key none txid db = db
commit_row now key (some r) txid db = record db {
  rows = insert key (committed_row now txid r) db.rows;
}

unfoldable pub commit : ℕ → String → String → Db → Ack × Db
unfolding commit_row
commit now key txid db =
    if is_real txid
    then if db.is_open
      then (done, commit_row now key (lookup key db.rows) txid db)
      else (not_open, db)
    else (invalid_txid, db)

release_row : String → Option Row → Db → Db
release_row key none db = db
release_row key (some r) db = elim r.status [
  | pending ↦ record db { rows = erase key db.rows }
  | _ ↦ db
]

unfoldable pub release : String → Db → Ack × Db
unfolding release_row
release key db =
    if db.is_open then (done, release_row key (lookup key db.rows) db) else (not_open, db)

peek_row : Option Row → Option String
peek_row none = none
peek_row (some r) = elim r.status [ committed ↦ some r.txid | _ ↦ none ]

-- `none` is the assertion of an open connection, also in `count`.
unfoldable pub peek : String → Db → Option (Option String)
unfolding peek_row
peek key db = if db.is_open then some (peek_row (lookup key db.rows)) else none

unfoldable pub count : Db → Option ℕ
count db = if db.is_open then some (length db.rows) else none

unfoldable pub close : Db → Db
close db = record db { is_open = false }

-- `_reset_for_tests`
unfoldable pub reset : Db → Option Db
reset db = if db.is_open then some (record db { rows = [] }) else none

promote : ℕ → Row → Row
promote now r = elim r.status [ pending ↦ record r { status = unknown; updated_at = now } | _ ↦ r ]

pending_row : Row → ℕ
pending_row r = elim r.status [ pending ↦ 1 | _ ↦ 0 ]

count_pending : Dict Row → ℕ
unfolding pending_row
count_pending [] = 0
count_pending ((k, r) ∷ rows) = pending_row r + count_pending rows

-- The UPDATE, and its row count.
unfoldable pub recover_orphans : ℕ → Db → ℕ × Db
unfolding promote count_pending
recover_orphans now db =
    (count_pending db.rows, record db { rows = map_values (promote now) db.rows })

-- `__init__` over the rows that are on disk.
unfoldable pub open_db : ℕ → String → Dict Row → Db
unfolding recover_orphans
open_db now process_id rows =
    (recover_orphans now (record { is_open = true; process_id = process_id; rows = rows })).1
