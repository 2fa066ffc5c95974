-- ===== src/TronClient/Tests.antt =====
-- The client's theorems at concrete inputs, with the default configuration.
use skr_crypto.Exceptions.{Exc, Reply, returned, raised, is_transient_error}
use skr_crypto.TronClient.Retry.{with_retry, with_retry_lem}
use skr_crypto.TronClient.Fees.{
  Config, PriceCache, clamp_fee, compute_fee_limit_sun, compute_fee_limit_bounds,
}
use skr_crypto.Prelude.{ℕ, ◌≤◌, none, some, [], ◌∷◌, ◌≡◌, refl, arith, ◌==◌, if◌then◌else◌}

abbrev config : Config
config = record { fee_limit_sun = 30000000; price_fallback = 420; mult_num = 13; mult_den = 10 }

abbrev too_many : Exc
too_many = record { class_name = "HTTPError"; text = "429 Too Many Requests" }

-- Fails once, then answers.
abbrev flaky : ℕ → Reply ℕ
flaky n = if n == 1 then raised too_many else returned 7

with_retry_lem_example : with_retry flaky ≡ (some (returned 7), 2 ∷ [])
unfolding is_transient_error
with_retry_lem_example = with_retry_lem flaky

-- 31895 energy at 420 SUN, times 1.3.
usual_fee : compute_fee_limit_sun config (some 31895) 420 ≡ 17414670
unfolding compute_fee_limit_sun clamp_fee skr_crypto.TronClient.Fees.scaled_fee
usual_fee = refl

compute_fee_limit_bounds_example :
    (5000000 ≤ compute_fee_limit_sun config (some 99) 420)
    × (compute_fee_limit_sun config (some 99) 420 ≤ 30000000)
    × (clamp_fee config (compute_fee_limit_sun config (some 99) 420)
        ≡ compute_fee_limit_sun config (some 99) 420)
compute_fee_limit_bounds_example = compute_fee_limit_bounds config (some 99) 420 (omega arith)

abbrev cold : PriceCache
cold = record { price = none; fetched_at = 0 }
