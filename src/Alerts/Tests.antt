-- ===== src/Alerts/Tests.antt =====
-- Alerts on small inputs.
use skr_crypto.Alerts.{
  State, Config, init_alerts, is_configured, notify_event, matches_rule, is_suppressed,
  in_quiet_hours,
}
use skr_crypto.Alerts.Critical.{alert, notify_event-critical}
use skr_crypto.Alerts.Message.{Entry, Reading, format_message, short, is_sanctions_hit, esc}
use skr_crypto.Alerts.Message.Escapes.{shown-esc, NoBracket, shown}
use skr_crypto.Deliveries.{empty, enqueue}
use skr_crypto.Models.{whole}
use skr_crypto.Prelude.Text.{codes}
use skr_crypto.Prelude.{true, false, none, some, [], ◌∷◌, ◌≡◌, refl, inr, All, length}

abbrev reading : Reading
reading = record { parse = λ s. some (whole 5 2); show = λ d. codes "500"; now_text = [] }

abbrev config : Config
config = record {
  database = empty;
  bot_token = "b";
  chat_id = "c";
  event_filter = "SEND_REJECTED" ∷ [];
  send_threshold_usdt = some (whole 5 2);
  sanctions_notify = true;
  quiet_hours_utc = "22-8";
  backoff_schedule = 0 ∷ [];
}

abbrev off : State
off = record {
  store = none;
  worker = none;
  chat_id = "";
  bot_token = "";
  event_filter = [];
  threshold = none;
  sanctions_notify = true;
  quiet_spec = "";
}

abbrev running : State
unfolding init_alerts
running = init_alerts config off

abbrev rejection : Entry
rejection = record {
  id = 7;
  timestamp = "t";
  event = "SEND_REJECTED";
  wallet = "w<1>";
  from_address = "";
  to_address = "";
  amount = "";
  asset = "";
  txid = "";
  idempotency_key = "";
  token_id = "";
  result = "";
  details = "failed=Sanctions";
}

message_text :
    format_message reading rejection none
    ≡ codes
        "🚨 <b>OFAC SANCTIONS REJECT</b>\n\nWallet: <code>w&lt;1&gt;</code>\nDetails: failed=Sanctions\n\n<i>t</i>"
unfolding format_message codes skr_crypto.Prelude.Text.mentions_lower skr_crypto.Prelude.Chars.strip
    skr_crypto.Prelude.Chars.is_space
message_text = refl

high_value : matches_rule reading running (record rejection { event = "SEND_SUCCESS" }) ≡ true
unfolding matches_rule init_alerts skr_crypto.Alerts.Message.meets_threshold
high_value = refl

-- An ordinary rejection at night is dropped, a sanctions hit is not.
dropped : is_suppressed running (record rejection { details = "" }) 23 ≡ true
unfolding is_suppressed init_alerts codes skr_crypto.Prelude.Chars.split_once
    skr_crypto.Prelude.Integers.read_int skr_crypto.Prelude.Chars.strip
    skr_crypto.Prelude.Chars.is_space skr_crypto.Prelude.Chars.read_digits is_sanctions_hit
    skr_crypto.Prelude.Text.mentions_lower
dropped = refl

kept : is_suppressed running rejection 23 ≡ false
unfolding is_suppressed init_alerts codes skr_crypto.Prelude.Chars.split_once
    skr_crypto.Prelude.Integers.read_int skr_crypto.Prelude.Chars.strip
    skr_crypto.Prelude.Chars.is_space skr_crypto.Prelude.Chars.read_digits is_sanctions_hit
    skr_crypto.Prelude.Text.mentions_lower
kept = refl

no_window : in_quiet_hours (codes "8") 8 ≡ false
unfolding in_quiet_hours codes skr_crypto.Prelude.Chars.split_once
no_window = refl

shortened : length (short "  abc ") ≡ 3
unfolding short codes skr_crypto.Prelude.Chars.strip skr_crypto.Prelude.Chars.is_space
shortened = refl

shown-esc_example :
    All NoBracket (esc (codes "a<b & c>d"))
    × (shown 0 (esc (codes "a<b & c>d")) ≡ codes "a<b & c>d")
shown-esc_example = shown-esc (codes "a<b & c>d")

notify_event-critical_example :
    notify_event reading 23 9 rejection running
    ≡ record running { store = some (enqueue 9 (alert reading running rejection) empty).1 }
unfolding is_configured is_sanctions_hit init_alerts skr_crypto.Prelude.Text.mentions_lower
notify_event-critical_example =
    notify_event-critical reading 23 9 rejection running empty refl refl (inr (refl, refl))
