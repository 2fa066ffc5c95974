-- ===== src/Alerts.antt =====
-- skr_crypto/server/alerts.py: the rules that decide which audit records alert the operator, quiet
-- hours, and the module's state. The delivery table and the worker are those of Deliveries, the text
-- of a message is in Message. `Decimal(text)` is an argument of the definitions that use it.
pub mod Message
mod QuietHours
mod Critical
pub mod Rows
mod Tests
use skr_crypto.Alerts.Message.{Entry, Reading, is_sanctions_hit, meets_threshold, format_message}
use skr_crypto.Deliveries.{Store, enqueue}
use skr_crypto.Deliveries.Worker
use skr_crypto.Models.{Decimal}
use skr_crypto.Prelude.Chars.{Chars, split_once}
use skr_crypto.Prelude.Integers.{ℤ, pos, read_int}
use skr_crypto.Prelude.Text.{codes}
use skr_crypto.Prelude.{
  ℕ, String, Bool, true, false, ◌&&◌, ◌||◌, not, Option, none, some, List, any, str_eq, leb, ltb,
  ◌==◌, if◌then◌else◌,
}

-- The comparisons of `_in_quiet_hours`, on the two numbers of the window.
unfoldable pub in_window : ℕ → ℕ → ℕ → Bool
in_window start stop hour =
    if start == stop
    then false
    else if ltb start stop
    then leb start hour && ltb hour stop
    else leb start hour || ltb hour stop

window_of : ℕ → Option ℤ → Option ℤ → Bool
unfolding in_window
window_of hour (some (pos start)) (some (pos stop)) =
    if leb start 23 && leb stop 23 then in_window start stop hour else false
window_of hour _ _ = false

parts_of : ℕ → Option (Chars × Chars) → Bool
unfolding window_of
parts_of hour none = false
parts_of hour (some (a, b)) = window_of hour (read_int a) (read_int b)

unfoldable pub in_quiet_hours : Chars → ℕ → Bool
unfolding parts_of
in_quiet_hours spec hour = parts_of hour (split_once b'-' spec)

unfoldable pub bypasses_quiet_hours : Entry → Bool
bypasses_quiet_hours e = str_eq e.event "SEND_FAILED" || is_sanctions_hit e

-- `event` as the record has it, and the code points of the message.
pub record Content : Type 0 where
  pub audit_event_id : ℕ
  pub event : String
  pub chat_id : String
  pub message : Chars

-- The module's variables; `_worker` by its settings.
pub record State : Type 0 where
  pub store : Option (Store Content)
  pub worker : Option Worker.Settings
  pub chat_id : String
  pub bot_token : String
  pub event_filter : List String
  pub threshold : Option Decimal
  pub sanctions_notify : Bool
  pub quiet_spec : String

-- The arguments of `init_alerts`, with the rows that the database holds.
pub record Config : Type 0 where
  pub database : Store Content
  pub bot_token : String
  pub chat_id : String
  pub event_filter : List String
  pub send_threshold_usdt : Option Decimal
  pub sanctions_notify : Bool
  pub quiet_hours_utc : String
  pub backoff_schedule : List ℕ

unfoldable pub shutdown_alerts : State → State
shutdown_alerts s = record s { store = none; worker = none }

unfoldable pub init_alerts : Config → State → State
unfolding shutdown_alerts
init_alerts cfg s =
    if str_eq cfg.bot_token "" || str_eq cfg.chat_id ""
    then record (shutdown_alerts s) { bot_token = ""; chat_id = "" }
    else record {
      store = some cfg.database;
      worker = some (record { backoff = cfg.backoff_schedule; body_limit = 300 });
      chat_id = cfg.chat_id;
      bot_token = cfg.bot_token;
      event_filter = cfg.event_filter;
      threshold = cfg.send_threshold_usdt;
      sanctions_notify = cfg.sanctions_notify;
      quiet_spec = cfg.quiet_hours_utc;
    }

abbrev pub is_some {ℓ} : {A : Type ℓ} → Option A → Bool
is_some none = false
is_some (some a) = true

unfoldable pub is_configured : State → Bool
is_configured s = not (str_eq s.bot_token "") && not (str_eq s.chat_id "") && is_some s.store

unfoldable pub matches_rule : Reading → State → Entry → Bool
unfolding is_configured
matches_rule read s e =
    is_configured s
    && (any (λ f. str_eq f e.event) s.event_filter
        || meets_threshold read e s.threshold
        || (s.sanctions_notify && is_sanctions_hit e))

-- The test that drops a record in quiet hours.
unfoldable pub is_suppressed : State → Entry → ℕ → Bool
unfolding in_quiet_hours bypasses_quiet_hours
is_suppressed s e hour =
    not (str_eq s.quiet_spec "")
    && in_quiet_hours (codes s.quiet_spec) hour
    && not (bypasses_quiet_hours e)

enqueue_alert : Reading → ℕ → Entry → Option (Store Content) → State → State
enqueue_alert read now e none s = s
enqueue_alert read now e (some store) s =
    let c : Content = record {
      audit_event_id = e.id;
      event = e.event;
      chat_id = s.chat_id;
      message = format_message read e s.threshold;
    } in
    record s { store = some (enqueue now c store).1 }

-- `hour` is the UTC hour and `now` the time of the insertion.
unfoldable pub notify_event : Reading → ℕ → ℕ → Entry → State → State
unfolding matches_rule is_suppressed enqueue_alert
notify_event read hour now e s =
    if matches_rule read s e && not (is_suppressed s e hour)
    then enqueue_alert read now e s.store s
    else s
