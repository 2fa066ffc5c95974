-- ===== src/Audit/Record/Derived.antt =====
-- The rows of webhooks and alerts against the durable audit log.
use skr_crypto.Alerts.Rows as AlertRows
use skr_crypto.Alerts.Rows.{notify_event-All}
use skr_crypto.Alerts.Message
use skr_crypto.Audit.{
  Fields, Entry, Written, written, write_error, write, write-durable_or_error, next_entry,
}
use skr_crypto.Audit
use skr_crypto.Audit.Record.{
  World, Extra, Surroundings, entry_of, after_write, derive, record_event,
}
use skr_crypto.Deliveries.Rows.{AllRows, AllRows-mono}
use skr_crypto.Webhooks.Rows as WebhookRows
use skr_crypto.Webhooks.Rows.{enqueue_event_for_delivery-All}
use skr_crypto.Prelude.{ℕ, true, List, ◌∷◌, ◌≡◌, refl, ◌+◌, arith, any, ◌==◌}

abbrev IsRecorded : List Entry → ℕ → Type 0
IsRecorded es i = any (λ e. e.id == i) es ≡ true

-- Every row of the webhooks and of the alerts stands for a record of the durable log.
pub record IsDerived (w : World) : Type 0 where
  pub webhook_rows : AllRows (WebhookRows.OfId (IsRecorded w.audit.durable)) w.webhooks.store
  pub alert_rows : AllRows (AlertRows.OfId (IsRecorded w.audit.durable)) w.alerts.store

IsRecorded-later : (e : Entry) (es : List Entry) (i : ℕ) → IsRecorded es i → IsRecorded (e ∷ es) i
IsRecorded-later e es i h = ground arith

IsRecorded-newest : (e : Entry) (es : List Entry) (i : ℕ) → i ≡ e.id → IsRecorded (e ∷ es) i
IsRecorded-newest e es i h = ground arith

derive-IsDerived :
    (env : Surroundings) (e : Message.Entry) (w : World)
    → IsRecorded w.audit.durable e.id
    → IsDerived w
    → IsDerived (derive env e w)
unfolding derive
derive-IsDerived env e w h v =
    let P = IsRecorded w.audit.durable in
    record {
      webhook_rows =
          enqueue_event_for_delivery-All P env.clock e.id e.event (env.dumps e) w.webhooks h
            v.webhook_rows;
      alert_rows = notify_event-All P env.read env.hour env.now e w.alerts h v.alert_rows;
    }

-- A change of the audit log that keeps or extends the durable part.
same_log-IsDerived :
    (a : Audit.State) (w : World)
    → a.durable ≡ w.audit.durable
    → IsDerived w
    → IsDerived (record w { audit = a })
same_log-IsDerived a w h v = record {
  webhook_rows = rw h v.webhook_rows;
  alert_rows = rw h v.alert_rows;
}

longer_log-IsDerived :
    (e : Entry) (a : Audit.State) (w : World)
    → a.durable ≡ e ∷ w.audit.durable
    → IsDerived w
    → IsDerived (record w { audit = a })
longer_log-IsDerived e a w h v =
    let later = IsRecorded-later e w.audit.durable in
    record {
      webhook_rows =
          rw h (AllRows-mono (λ c. later c.audit_event_id) w.webhooks.store v.webhook_rows);
      alert_rows = rw h (AllRows-mono (λ c. later c.audit_event_id) w.alerts.store v.alert_rows);
    }

seq-write :
    (disk : Audit.Disk) (fields : Fields) (s : Audit.State)
    → (write disk fields s).1.seq ≡ s.seq + 1
unfolding write
seq-write disk fields s = ground arith

after_write-IsDerived :
    (env : Surroundings) (fields : Fields) (extra : Extra) (r : Written) (a : Audit.State)
    (w : World)
    → (r ≡ written → a.durable ≡ next_entry fields w.audit ∷ w.audit.durable)
    → (r ≡ write_error → a.durable ≡ w.audit.durable)
    → a.seq ≡ w.audit.seq + 1
    → IsDerived w
    → IsDerived (after_write env fields extra (r, a) w).1
unfolding after_write entry_of derive
after_write-IsDerived env fields extra write_error a w h k n v = same_log-IsDerived a w (k refl) v
after_write-IsDerived env fields extra written a w h k n v =
    derive-IsDerived env (entry_of env a.seq fields extra) (record w { audit = a })
      (rw (h refl) (IsRecorded-newest (next_entry fields w.audit) w.audit.durable a.seq n))
      (longer_log-IsDerived (next_entry fields w.audit) a w (h refl) v)

-- With an audit file configured, a call of `record` keeps every row of the webhooks and of the alerts
-- backed by a record of the durable log, whatever the disk, the filters and the rules do.
pub record_event-IsDerived :
    (env : Surroundings) (fields : Fields) (extra : Extra) (w : World)
    → w.audit.configured ≡ true
    → IsDerived w
    → IsDerived (record_event env fields extra w).1
unfolding record_event
record_event-IsDerived env fields extra w c v =
    let p = write env.disk fields w.audit in
    let stored = write-durable_or_error env.disk fields w.audit c in
    after_write-IsDerived env fields extra p.0 p.1 w stored.1.0 stored.1.1
      (seq-write env.disk fields w.audit) v
