-- ===== src/Audit/Tests.antt =====
-- An audit log with a file, on a disk that works and on one that does not.
use skr_crypto.Audit
use skr_crypto.Audit.{Fields, Entry, State, Disk, IsOrdered}
use skr_crypto.Prelude.{true, false, [], ◌∷◌, arith}

abbrev fields : Fields
fields = record {
  event = Audit.send_success;
  wallet = "hot";
  to_address = "Tgood";
  txid = "ab12";
  idempotency_key = "order-1";
  result = "broadcast";
}

abbrev entry : Entry
entry = record { id = 3; fields = fields }

abbrev log : State
log = record {
  seq = 4;
  logged = entry ∷ [];
  durable = entry ∷ [];
  file_open = true;
  open_failed = false;
  configured = true;
}

abbrev full : Disk
full = record { opens = true; writes = false }

log-IsOrdered : IsOrdered log
log-IsOrdered = record {
  log_order = (omega arith, omega arith, tt);
  file_order = (omega arith, omega arith, tt);
}
