-- ===== src/Audit/Record/Tests.antt =====
-- A call of `record` with webhooks and alerts turned on.
use skr_crypto.Alerts
use skr_crypto.Audit.{Fields, send_failed, write}
use skr_crypto.Audit.Record.{World, Extra, Surroundings, record_event}
use skr_crypto.Audit.Record.Derived.{IsDerived, record_event-IsDerived}
use skr_crypto.Deliveries.{empty}
use skr_crypto.Exceptions.{returned}
use skr_crypto.Models.{whole}
use skr_crypto.Prelude.Text.{codes}
use skr_crypto.Prelude.{ℕ, none, some, [], ◌∷◌, ◌≡◌, refl, true, false, length, Option}
use skr_crypto.Webhooks

abbrev env : Surroundings
env = record {
  disk = record { opens = true; writes = true };
  timestamp = "t";
  clock = λ n. 5;
  hour = 3;
  now = 5;
  dumps = λ e. returned "{}";
  read = record { parse = λ s. some (whole 5 2); show = λ d. []; now_text = [] };
}

abbrev failed_send : Fields
failed_send = record {
  event = send_failed;
  wallet = "w";
  to_address = "T1";
  txid = "";
  idempotency_key = "k";
  result = "tx_failed";
}

abbrev extra : Extra
extra = record { from_address = "T2"; amount = "1"; asset = "USDT"; token_id = "i"; details = "" }

abbrev before : World
before = record {
  audit = record {
    seq = 0;
    logged = [];
    durable = [];
    file_open = false;
    open_failed = false;
    configured = true;
  };
  webhooks = record {
    store = some empty;
    worker = none;
    event_filter = "SEND_FAILED" ∷ [];
    target_urls = "u" ∷ "v" ∷ [];
  };
  alerts = record {
    store = some empty;
    worker = none;
    chat_id = "c";
    bot_token = "b";
    event_filter = "SEND_FAILED" ∷ [];
    threshold = none;
    sanctions_notify = true;
    quiet_spec = "22-08";
  };
}

before-IsDerived : IsDerived before
before-IsDerived = record { webhook_rows = tt; alert_rows = tt }

webhook_count : World → Option ℕ
webhook_count w = elim w.webhooks.store [ none ↦ none | some s ↦ some (length s.rows) ]

alert_count : World → Option ℕ
alert_count w = elim w.alerts.store [ none ↦ none | some s ↦ some (length s.rows) ]

two_webhooks : webhook_count (record_event env failed_send extra before).1 ≡ some 2
unfolding webhook_count record_event write Webhooks.enqueue_event_for_delivery Webhooks.enqueue_urls
    skr_crypto.Deliveries.enqueue
two_webhooks = refl

one_alert : alert_count (record_event env failed_send extra before).1 ≡ some 1
unfolding alert_count record_event write Alerts.notify_event skr_crypto.Prelude.Chars.split_once
    codes skr_crypto.Prelude.Integers.read_int skr_crypto.Prelude.Chars.strip
    skr_crypto.Prelude.Chars.is_space skr_crypto.Prelude.Chars.read_digits
    skr_crypto.Deliveries.enqueue
one_alert = refl

-- A write that fails adds no row.
no_webhook :
    webhook_count
      (record_event
        (record env { disk = record { opens = true; writes = false } })
        failed_send
        extra
        before).1
    ≡ some 0
unfolding webhook_count record_event write
no_webhook = refl

record_event-IsDerived_example : IsDerived (record_event env failed_send extra before).1
record_event-IsDerived_example =
    record_event-IsDerived env failed_send extra before refl before-IsDerived
