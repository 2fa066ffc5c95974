-- ===== src/Risk/Checks.antt =====
-- The checks of skr_crypto/server/risk.py, one function each. A network check gets the reply, and
-- catches an exception in it.
use skr_crypto.Prelude.Text.{starts_with}
use skr_crypto.Exceptions.{Reply, returned, raised, is_not_found}
use skr_crypto.Sanctions
use skr_crypto.TronClient.Queries.{Destination}
use skr_crypto.Risk.Types.{
  RiskCheck, Account, TronScan, MistTrack, validity, burn_address, activation, smart_contract,
  usdt_blacklist, sanctions, balance, external_tronscan, external_misttrack, passed, failed,
  skipped, warned,
}
use skr_crypto.Prelude.{
  ℕ, String, Bool, true, false, ◌&&◌, ◌||◌, not, Option, none, some, List, [], ◌∷◌, any, length,
  leb, ◌==◌, str_eq, if◌then◌else◌,
}

-- `decoded[0] != 0x41` and `len(decoded) != 21` are tested in the other order, length first.
unfoldable pub check_decoded : List ℕ → RiskCheck
check_decoded [] = failed validity
check_decoded (b ∷ body) =
    if not (length (b ∷ body) == 21)
    then failed validity
    else if not (b == 0x41)
    then failed validity
    else passed validity

check_encoding : Option (List ℕ) → RiskCheck
unfolding check_decoded
check_encoding none = failed validity
check_encoding (some decoded) = check_decoded decoded

-- `base58.b58decode_check` gives the bytes, or `none` where it raises.
unfoldable pub check_validity : String → Option (List ℕ) → RiskCheck
unfolding check_encoding
check_validity address decoded =
    if not (starts_with address "T") then failed validity else check_encoding decoded

-- `KNOWN_BURN_ADDRESSES`
unfoldable pub known_burn : String → Bool
known_burn address = str_eq address "T9yD14Nj9j7xAB4dbGeiX9h8unkKHxuWwb"

-- `all(b == 0 for b in decoded[1:])`
unfoldable pub all_zero : List ℕ → Bool
all_zero [] = true
all_zero (b ∷ bs) = b == 0 && all_zero bs

unfoldable pub zero_body : Option (List ℕ) → Bool
unfolding all_zero
zero_body none = false
zero_body (some []) = true
zero_body (some (b ∷ body)) = all_zero body

unfoldable pub check_burn_address : String → Option (List ℕ) → RiskCheck
check_burn_address address decoded =
    if known_burn address
    then failed burn_address
    else if zero_body decoded
    then failed burn_address
    else passed burn_address

unfoldable pub check_activation : Reply Account → RiskCheck × Option Account
check_activation (raised e) =
    if is_not_found e then (warned activation, none) else (skipped activation, none)
check_activation (returned account) =
    if account.create_time == 0
    then (warned activation, some account)
    else (passed activation, some account)

-- The reply is whether the contract object is truthy.
unfoldable pub check_smart_contract : Reply Bool → RiskCheck
check_smart_contract (raised e) = passed smart_contract
check_smart_contract (returned contract) =
    if contract then failed smart_contract else passed smart_contract

unfoldable pub check_usdt_blacklist : Reply Bool → RiskCheck
check_usdt_blacklist (raised e) = skipped usdt_blacklist
check_usdt_blacklist (returned is_blacklisted) =
    if is_blacklisted then failed usdt_blacklist else passed usdt_blacklist

unfoldable pub check_balance : Reply Destination → RiskCheck × Option Destination
check_balance (raised e) = (skipped balance, none)
check_balance (returned info) = (passed balance, some info)

-- `"cold" if usdt_balance == 0 else "warm"`
unfoldable pub is_cold : Destination → Bool
is_cold info = info.usdt_balance == 0

sanctions_check : Option Bool → RiskCheck
sanctions_check none = skipped sanctions
sanctions_check (some matched) = if matched then failed sanctions else passed sanctions

unfoldable pub check_sanctions : String → Sanctions.State → RiskCheck
unfolding sanctions_check
check_sanctions address s = sanctions_check (Sanctions.contains address s)

misttrack_score : Option ℕ → RiskCheck
misttrack_score none = passed external_misttrack
misttrack_score (some score) =
    if leb 60 score then failed external_misttrack else passed external_misttrack

unfoldable pub check_misttrack : Option (Reply MistTrack) → RiskCheck
unfolding misttrack_score
check_misttrack none = skipped external_misttrack
check_misttrack (some (raised e)) = skipped external_misttrack
check_misttrack (some (returned r)) =
    if any (λ tag. tag) r.high_tags then failed external_misttrack else misttrack_score r.score

unfoldable pub tronscan_flags : TronScan → Bool
tronscan_flags r = r.is_black || any (λ black. black) r.entries || r.red_tag

unfoldable pub check_tronscan : Reply TronScan → RiskCheck
check_tronscan (raised e) = skipped external_tronscan
check_tronscan (returned r) =
    if tronscan_flags r then failed external_tronscan else passed external_tronscan
