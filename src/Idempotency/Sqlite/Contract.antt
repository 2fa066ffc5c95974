-- ===== src/Idempotency/Sqlite/Contract.antt =====
-- `SqliteIdempotencyStore` implements the interface of a durable store.
use skr_crypto.Prelude.{
  ℕ, String, Option, none, ◌≡◌, ◌≢◌, refl, true, false, arith, str_eq, eq_iff, inl, inr,
  Option-cases, if◌then◌else◌,
}
use skr_crypto.Prelude.Dict.{lookup, map_option, lookup-insert, lookup-erase, lookup-map_values}
use skr_crypto.Idempotency.{
  is_real, Phase, in_flight, done, invalid_txid, answer, claim, freed, recovered, Store, Durable,
}
use skr_crypto.Idempotency.Sqlite.{
  Row, Db, row_phase, phase, attempt, claimed_row, reserve, commit, committed_row, release, promote,
  open_db,
}

abbrev pub IsOpen : Db → Type 0
IsOpen db = db.is_open ≡ true

-- Under the lock the INSERT never meets its own key, so `reserve` never takes its `continue`.
pub attempt-ne-none : (now : ℕ) (k : String) (db : Db) → attempt now k (lookup k db.rows) db ≢ none
unfolding attempt
attempt-ne-none now k db = ground arith

pub reserve-answer :
    (now : ℕ) (k : String) (db : Db) → IsOpen db → (reserve now k db).0 ≡ answer (phase db k)
unfolding reserve phase
reserve-answer now k db h = ground arith

pub phase-reserve :
    (now : ℕ) (k j : String) (db : Db)
    → IsOpen db
    → phase (reserve now k db).1 j ≡ (if str_eq k j then claim (phase db k) else phase db j)
unfolding reserve phase
phase-reserve now k j db h =
    ground (arith, eq_iff k j, lookup-insert k j (claimed_row now db) db.rows)

pub reserve-IsOpen : (now : ℕ) (k : String) (db : Db) → IsOpen db → IsOpen (reserve now k db).1
unfolding reserve
reserve-IsOpen now k db h = ground arith

pub commit-done :
    (now : ℕ) (k t : String) (db : Db) → IsOpen db → is_real t ≡ true → (commit now k t db).0 ≡ done
unfolding commit
commit-done now k t db h real = ground arith

pub phase-commit :
    (now : ℕ) (k t j : String) (db : Db)
    → IsOpen db
    → is_real t ≡ true
    → phase db k ≡ in_flight
    → phase (commit now k t db).1 j ≡ (if str_eq k j then Phase.committed t else phase db j)
unfolding commit phase
phase-commit now k t j db h real flight = elim (Option-cases (lookup k db.rows)) [
  | inl missing ↦ ground arith
  | inr (r, e) ↦ ground (arith, lookup-insert k j (committed_row now t r) db.rows)
]

pub commit-IsOpen : (now : ℕ) (k t : String) (db : Db) → IsOpen db → IsOpen (commit now k t db).1
unfolding commit
commit-IsOpen now k t db h = ground arith

pub commit-invalid :
    (now : ℕ) (k t : String) (db : Db) → is_real t ≡ false → commit now k t db ≡ (invalid_txid, db)
unfolding commit
commit-invalid now k t db h = rw h

pub release-done : (k : String) (db : Db) → IsOpen db → (release k db).0 ≡ done
unfolding release
release-done k db h = ground arith

pub phase-release :
    (k j : String) (db : Db)
    → IsOpen db
    → phase (release k db).1 j ≡ (if str_eq k j then freed (phase db k) else phase db j)
unfolding release phase
phase-release k j db h = ground (arith, eq_iff k j, lookup-erase k j db.rows)

pub release-IsOpen : (k : String) (db : Db) → IsOpen db → IsOpen (release k db).1
unfolding release
release-IsOpen k db h = ground arith

row_phase-promote :
    (now : ℕ) (o : Option Row) → row_phase (map_option (promote now) o) ≡ recovered (row_phase o)
unfolding row_phase promote
row_phase-promote now o = ground arith

-- A startup promotes every key in flight to unresolved and keeps every other key.
pub phase-open_db :
    (now : ℕ) (pid : String) (db : Db) (j : String)
    → phase (open_db now pid db.rows) j ≡ recovered (phase db j)
unfolding open_db phase
phase-open_db now pid db j = rw lookup-map_values (row_phase-promote now (lookup j db.rows))

pub open_db-IsOpen : (now : ℕ) (pid : String) (db : Db) → IsOpen (open_db now pid db.rows)
unfolding open_db
open_db-IsOpen now pid db = refl

-- The durable store implements the interface.
abbrev pub store : Store
store = record {
  State = Db;
  IsOpen = IsOpen;
  phase = phase;
  reserve = reserve;
  commit = commit;
  release = release;
  reserve-answer = reserve-answer;
  phase-reserve = phase-reserve;
  reserve-IsOpen = reserve-IsOpen;
  commit-done = commit-done;
  phase-commit = phase-commit;
  commit-IsOpen = commit-IsOpen;
  commit-invalid = commit-invalid;
  release-done = release-done;
  phase-release = phase-release;
  release-IsOpen = release-IsOpen;
}

-- A restart opens the rows on disk in a new process, `process_id`.
abbrev pub durable : String → Durable
durable process_id = record {
  store = store;
  restart = λ now db. open_db now process_id db.rows;
  phase-restart = λ now j db. phase-open_db now process_id db j;
  restart-IsOpen = λ now db. open_db-IsOpen now process_id db;
}
