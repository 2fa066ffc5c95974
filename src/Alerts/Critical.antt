-- ===== src/Alerts/Critical.antt =====
-- Alerts that quiet hours do not hold back.
use skr_crypto.Alerts.{
  State, Content, is_configured, matches_rule, is_suppressed, bypasses_quiet_hours, notify_event,
}
use skr_crypto.Alerts.Message.{Entry, Reading, is_sanctions_hit, format_message}
use skr_crypto.Deliveries.{Store, enqueue}
use skr_crypto.Prelude.{ℕ, true, some, any, str_eq, eq_iff, ◌≡◌, ◌⊎◌, arith}

-- The row's content for an entry.
abbrev pub alert : Reading → State → Entry → Content
alert read s e = record {
  audit_event_id = e.id;
  event = e.event;
  chat_id = s.chat_id;
  message = format_message read e s.threshold;
}

-- At every hour a SEND_FAILED record that the filter names, and a sanctions hit unless its alerts are
-- turned off, adds a pending alert with its message for the configured chat, whatever the quiet hours.
pub notify_event-critical :
    (read : Reading) (hour now : ℕ) (e : Entry) (s : State) (store : Store Content)
    → is_configured s ≡ true
    → s.store ≡ some store
    → ((e.event ≡ "SEND_FAILED") × (any (λ f. str_eq f e.event) s.event_filter ≡ true))
      ⊎ ((is_sanctions_hit e ≡ true) × (s.sanctions_notify ≡ true))
    → notify_event read hour now e s
      ≡ record s { store = some (enqueue now (alert read s e) store).1 }
unfolding notify_event matches_rule is_suppressed bypasses_quiet_hours
notify_event-critical read hour now e s store c h k =
    ground (arith, c, h, k, eq_iff e.event "SEND_FAILED")
