-- ===== src/Alerts/QuietHours.antt =====
-- The window of the quiet hours as hours of a clock.
use skr_crypto.Alerts.{in_window, in_quiet_hours}
use skr_crypto.Prelude.Chars.{decimal, split_once-append, decimal-IsDigit, IsDigit}
use skr_crypto.Prelude.Integers.{All-mono, read_int-decimal}
use skr_crypto.Prelude.{ℕ, ◌+◌, ◌-◌, ◌%◌, ◌≤◌, ◌≢◌, ◌∷◌, ◌++◌, ◌≡◌, arith, ltb}

-- A window that ends the next day goes on past midnight.
in_window-clock :
    (start stop hour : ℕ)
    → start ≤ 23
    → stop ≤ 23
    → hour ≤ 23
    → in_window start stop hour ≡ ltb ((hour + 24 - start) % 24) ((stop + 24 - start) % 24)
unfolding in_window
in_window-clock start stop hour h k l = ground arith

digit-dash : (c : ℕ) → IsDigit c → c ≢ b'-'
digit-dash c h = omega (arith, h)

-- With quiet hours "A-B" of two hours of the day, an hour is quiet exactly when it is fewer hours
-- after A on the clock than B is; so with A = B no hour is.
in_quiet_hours-clock :
    (start stop hour : ℕ)
    → start ≤ 23
    → stop ≤ 23
    → hour ≤ 23
    → in_quiet_hours (decimal start ++ b'-' ∷ decimal stop) hour
      ≡ ltb ((hour + 24 - start) % 24) ((stop + 24 - start) % 24)
unfolding in_quiet_hours
in_quiet_hours-clock start stop hour h k l = ground (
  arith,
  split_once-append b'-' (decimal start) (decimal stop)
      (All-mono digit-dash (decimal start) (decimal-IsDigit start)),
  read_int-decimal start,
  read_int-decimal stop,
  in_window-clock start stop hour,
)
