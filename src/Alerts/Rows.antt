-- ===== src/Alerts/Rows.antt =====
-- The row that `notify_event` adds.
use skr_crypto.Alerts.{Content, State, matches_rule, is_suppressed, enqueue_alert, notify_event}
use skr_crypto.Alerts.Message.{Entry, Reading}
use skr_crypto.Deliveries
use skr_crypto.Deliveries.Rows.{AllRows, enqueue-All}
use skr_crypto.Prelude.{ℕ, ◌&&◌, not, Option, none, some, if_either}

module _ (P : ℕ → Type 0) where
  abbrev pub OfId : Content → Type 0
  OfId c = P c.audit_event_id

  enqueue_alert-All :
      (read : Reading) (now : ℕ) (e : Entry) (store : Option (Deliveries.Store Content)) (s : State)
      → P e.id
      → AllRows OfId store
      → AllRows OfId s.store
      → AllRows OfId (enqueue_alert read now e store s).store
  unfolding enqueue_alert
  enqueue_alert-All read now e none s h k l = l
  enqueue_alert-All read now e (some store) s h k l = enqueue-All OfId now _ store h k

  pub notify_event-All :
      (read : Reading) (hour now : ℕ) (e : Entry) (s : State)
      → P e.id
      → AllRows OfId s.store
      → AllRows OfId (notify_event read hour now e s).store
  unfolding notify_event
  notify_event-All read hour now e s h k =
      if_either (λ (t : State). AllRows OfId t.store)
        (matches_rule read s e && not (is_suppressed s e hour))
        (enqueue_alert-All read now e s.store s h k k) k
