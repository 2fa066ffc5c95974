-- ===== src/Audit/Record.antt =====
-- `record` of skr_crypto/server/audit.py with what it sets off: the durable write, then the rows of
-- the webhooks and of the alerts. The two calls at its end never raise in these models.
mod Derived
mod Tests
use skr_crypto.Alerts
use skr_crypto.Alerts.{notify_event}
use skr_crypto.Alerts.Message.{Entry, Reading}
use skr_crypto.Audit
use skr_crypto.Audit.{
  Disk, Event, send_rejected, send_duplicate, send_failed, send_success, receipt_resolved, Fields,
  Written, written, write_error, write,
}
use skr_crypto.Exceptions.{Reply}
use skr_crypto.Webhooks
use skr_crypto.Webhooks.{enqueue_event_for_delivery}
use skr_crypto.Prelude.{ℕ, String}

pub record World : Type 0 where
  pub audit : Audit.State
  pub webhooks : Webhooks.State
  pub alerts : Alerts.State

-- The arguments of `record` that Fields leaves out.
pub record Extra : Type 0 where
  pub from_address : String
  pub amount : String
  pub asset : String
  pub token_id : String
  pub details : String

-- What one call meets: the disk, the time stamp, the clock of each row, the UTC hour, the text that
-- `json.dumps` gives for an entry, and how alerts read numbers.
pub record Surroundings : Type 0 where
  pub disk : Disk
  pub timestamp : String
  pub clock : ℕ → ℕ
  pub hour : ℕ
  pub now : ℕ
  pub dumps : Entry → Reply String
  pub read : Reading

event_name : Event → String
event_name send_rejected = "SEND_REJECTED"
event_name send_duplicate = "SEND_DUPLICATE"
event_name send_failed = "SEND_FAILED"
event_name send_success = "SEND_SUCCESS"
event_name receipt_resolved = "RECEIPT_RESOLVED"

unfoldable pub entry_of : Surroundings → ℕ → Fields → Extra → Entry
unfolding event_name
entry_of env i fields extra = record {
  id = i;
  timestamp = env.timestamp;
  event = event_name fields.event;
  wallet = fields.wallet;
  from_address = extra.from_address;
  to_address = fields.to_address;
  amount = extra.amount;
  asset = extra.asset;
  txid = fields.txid;
  idempotency_key = fields.idempotency_key;
  token_id = extra.token_id;
  result = fields.result;
  details = extra.details;
}

unfoldable pub derive : Surroundings → Entry → World → World
derive env e w = record w {
  webhooks = enqueue_event_for_delivery env.clock e.id e.event (env.dumps e) w.webhooks;
  alerts = notify_event env.read env.hour env.now e w.alerts;
}

-- An AuditWriteError leaves `record` before the webhooks.
after_write : Surroundings → Fields → Extra → Written × Audit.State → World → Written × World
unfolding derive entry_of
after_write env fields extra (write_error, audit) w = (write_error, record w { audit = audit })
after_write env fields extra (written, audit) w =
    (written, derive env (entry_of env audit.seq fields extra) (record w { audit = audit }))

unfoldable pub record_event : Surroundings → Fields → Extra → World → Written × World
unfolding after_write
record_event env fields extra w = after_write env fields extra (write env.disk fields w.audit) w
