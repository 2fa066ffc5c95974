-- ===== src/Risk/Assess.antt =====
-- `assess_risk`, `_level_from` and `should_block` of skr_crypto/server/risk.py.
use skr_crypto.TronClient.Queries.{Destination}
use skr_crypto.Risk.Types.{
  RiskLevel, low, medium, invalid, CheckStatus, RiskCheck, Severity, Account, World, Summary,
  RiskReport,
}
use skr_crypto.Risk.Checks.{
  check_validity, check_burn_address, check_activation, check_smart_contract, check_usdt_blacklist,
  check_balance, check_sanctions, check_misttrack, check_tronscan,
}
use skr_crypto.Prelude.{
  ℕ, String, Bool, true, false, ◌&&◌, ◌||◌, Option, none, some, List, [], ◌∷◌, any, ◌==◌,
  if◌then◌else◌,
}

abbrev pub is_fail : CheckStatus → Bool
is_fail CheckStatus.fail = true
is_fail _ = false

abbrev pub is_warn : CheckStatus → Bool
is_warn CheckStatus.warn = true
is_warn _ = false

abbrev pub is_high : Severity → Bool
is_high Severity.high = true
is_high _ = false

abbrev pub high_fail : RiskCheck → Bool
high_fail c = is_fail c.status && is_high c.severity

unfoldable pub level_from : List RiskCheck → RiskLevel
level_from checks =
    let has_high_fail = any high_fail checks in
    let has_warn = any (λ (c : RiskCheck). is_warn c.status) checks in
    let has_fail = any (λ (c : RiskCheck). is_fail c.status) checks in
    if has_high_fail then RiskLevel.high else if has_fail || has_warn then medium else low

-- A field of the account that is not zero.
nonzero : ℕ → Option ℕ
nonzero n = if n == 0 then none else some n

summarise : Option Account → Option Destination → Summary
unfolding nonzero
summarise none found = record {
  create_time_ms = none;
  latest_opration_time_ms = none;
  found_balance = found;
}
summarise (some a) found = record {
  create_time_ms = nonzero a.create_time;
  latest_opration_time_ms = nonzero a.latest_opration_time;
  found_balance = found;
}

unfoldable pub external_checks : Bool → World → List RiskCheck
external_checks external w =
    if external then check_tronscan w.tronscan ∷ check_misttrack w.misttrack ∷ [] else []

unfoldable pub valid_checks : String → Bool → World → List RiskCheck
unfolding external_checks
valid_checks address external w =
    check_validity address w.decoded
    ∷ check_burn_address address w.decoded
    ∷ (check_activation w.account).0
    ∷ check_smart_contract w.contract
    ∷ check_usdt_blacklist w.is_blacklisted
    ∷ check_sanctions address w.sanctions
    ∷ (check_balance w.destination).0
    ∷ external_checks external w

unfoldable pub assess_risk : String → Bool → World → RiskReport
unfolding valid_checks summarise
assess_risk address external w =
    if is_fail (check_validity address w.decoded).status
    then record {
      address = address;
      level = invalid;
      checks = check_validity address w.decoded ∷ [];
      summary = summarise none none;
    }
    else record {
      address = address;
      level = level_from (valid_checks address external w);
      checks = valid_checks address external w;
      summary = summarise (check_activation w.account).1 (check_balance w.destination).1;
    }

-- `RISK_BLOCK_LEVEL`, in lower case; any other text is `other`, which the startup checks refuse.
pub data BlockLevel : Type 0 where
  at_none at_medium at_high other : BlockLevel

unfoldable pub should_block : RiskLevel → BlockLevel → Bool
should_block level at_none = false
should_block RiskLevel.high block_at = true
should_block invalid block_at = true
should_block medium at_medium = true
should_block level block_at = false
