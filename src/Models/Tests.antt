-- ===== src/Models/Tests.antt =====
-- A request for 1.50 USDT.
use skr_crypto.Models
use skr_crypto.Models.{SendRequest, fraction, accepts, to_micro}
use skr_crypto.Prelude.{true, none, ◌≡◌, refl}

abbrev request : SendRequest
request = record {
  to_address = "TGoodGoodGoodGoodGoodGoodGoodGood1";
  amount = fraction 150 2;
  idempotency_key = "order-1";
  wallet = none;
}

accepted : accepts request ≡ true
unfolding accepts Models.count_chars
accepted = refl

-- 12345678901234567890123.123456 USDT is accepted, and rounded to 28 digits.
abbrev long_request : SendRequest
long_request = record request { amount = fraction 12345678901234567890123123456 6 }

accepted_long : accepts long_request ≡ true
unfolding accepts Models.count_chars
accepted_long = refl

rounded : to_micro long_request.amount ≡ 12345678901234567890123123460
unfolding to_micro
rounded = refl
