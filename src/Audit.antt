-- ===== src/Audit.antt =====
-- skr_crypto/server/audit.py: the counter, the two logs and the file handle. What the disk does at
-- one record is an argument. The process id in front of the counter, the time stamp and the
-- best-effort webhooks and alerts at the end of `record` are left out: they change nothing here.
mod Tests
pub mod Record
use skr_crypto.Prelude.{
  ℕ, ◌+◌, ◌-◌, ◌≤◌, ◌<◌, String, Bool, true, false, ◌||◌, not, List, [], ◌∷◌, ◌≡◌, arith,
  if◌then◌else◌,
}

pub data Event : Type 0 where
  send_rejected send_duplicate send_failed send_success receipt_resolved : Event

-- The keyword arguments of `record` that identify the action.
pub record Fields : Type 0 where
  pub event : Event
  pub wallet : String
  pub to_address : String
  pub txid : String
  pub idempotency_key : String
  pub result : String

pub record Entry : Type 0 where
  pub id : ℕ
  pub fields : Fields

-- Newest entries first: `_seq_counter`, the "payouts.audit" logger, the durable file, `_file_fp is
-- not None`, `_file_open_failed`, and whether AUDIT_LOG_FILE is set.
pub record State : Type 0 where
  pub seq : ℕ
  pub logged : List Entry
  pub durable : List Entry
  pub file_open : Bool
  pub open_failed : Bool
  pub configured : Bool

-- Whether an open and a write with fsync go through.
pub record Disk : Type 0 where
  pub opens : Bool
  pub writes : Bool

-- How `record` ends: normally, or by `AuditWriteError`.
pub data Written : Type 0 where
  written write_error : Written

-- The state after `_get_audit_file`, and whether there is a handle.
unfoldable pub get_audit_file : Disk → State → Bool × State
get_audit_file disk s =
    if not s.configured || s.open_failed
    then (false, s)
    else if s.file_open
    then (true, s)
    else if disk.opens
    then (true, record s { file_open = true })
    else (false, record s { open_failed = true })

unfoldable pub write_durable : Disk → Entry → State → Written × State
unfolding get_audit_file
write_durable disk e s =
    let (has_file, s') = get_audit_file disk s in
    if not has_file
    then (if s'.open_failed then write_error else written, s')
    else if disk.writes
    then (written, record s' { durable = e ∷ s'.durable })
    else (write_error, s')

abbrev pub next_entry : Fields → State → Entry
next_entry fields s = record { id = s.seq + 1; fields = fields }

unfoldable pub write : Disk → Fields → State → Written × State
unfolding write_durable
write disk fields s =
    write_durable disk (next_entry fields s)
      (record s { seq = s.seq + 1; logged = next_entry fields s ∷ s.logged })

unfoldable pub close_audit_file : State → State
close_audit_file s = record s { file_open = false }

-- Identifiers fall strictly, newest first, and none is above `n`.
abbrev pub Falling : ℕ → List Entry → Type 0
Falling n [] = Unit {0}
Falling n (e ∷ es) = (e.id ≤ n) × (0 < e.id) × Falling (e.id - 1) es

Falling-mono : (n m : ℕ) (es : List Entry) → n ≤ m → Falling n es → Falling m es
Falling-mono n m [] h f = tt
Falling-mono n m (e ∷ es) h f = (omega arith, f.1, f.2)

-- Both logs are in order, so no identifier is used twice, and a file that was opened did not fail to.
pub record IsOrdered (s : State) : Type 0 where
  pub log_order : Falling s.seq s.logged
  pub file_order : Falling s.seq s.durable

-- Every record keeps the identifiers of both logs strictly ordered, whatever the disk does.
write-IsOrdered :
    (disk : Disk) (fields : Fields) (s : State) → IsOrdered s → IsOrdered (write disk fields s).1
unfolding write
write-IsOrdered disk fields s v = ground (
  arith,
  Falling-mono s.seq (s.seq + 1) s.durable,
  Falling-mono s.seq (s.seq + 1 - 1) s.durable,
  Falling-mono s.seq (s.seq + 1 - 1) s.logged,
)

-- With AUDIT_LOG_FILE set, a record that returns normally is the newest line of the file, and one
-- that raises has left the file as it was; it is in the operational log either way.
pub write-durable_or_error :
    (disk : Disk) (fields : Fields) (s : State)
    → s.configured ≡ true
    → let (r, s') = write disk fields s in
      (s'.logged ≡ next_entry fields s ∷ s.logged)
      × ((r ≡ written → s'.durable ≡ next_entry fields s ∷ s.durable)
          × (r ≡ write_error → s'.durable ≡ s.durable))
unfolding write
write-durable_or_error disk fields s c = ground arith

-- Without AUDIT_LOG_FILE no record raises and nothing is written.
write-unconfigured :
    (disk : Disk) (fields : Fields) (s : State)
    → s.configured ≡ false
    → s.open_failed ≡ false
    → ((write disk fields s).0 ≡ written) × ((write disk fields s).1.durable ≡ s.durable)
unfolding write
write-unconfigured disk fields s c o = ground arith

-- Once the file could not be opened, every later record raises, even if the disk has recovered.
write-after_open_failed :
    (disk : Disk) (fields : Fields) (s : State)
    → s.configured ≡ true
    → s.open_failed ≡ true
    → ((write disk fields s).0 ≡ write_error) × ((write disk fields s).1.open_failed ≡ true)
unfolding write
write-after_open_failed disk fields s c o = ground arith
