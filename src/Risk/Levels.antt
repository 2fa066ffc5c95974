-- ===== src/Risk/Levels.antt =====
-- What the verdict of `assess_risk` means, and what `/send` does with it.
use skr_crypto.Exceptions.{Reply, returned, raised, is_not_found}
use skr_crypto.Sanctions
use skr_crypto.TronClient.Queries.{Destination}
use skr_crypto.Risk.Types.{
  RiskLevel, low, medium, invalid, RiskCheck, Account, TronScan, MistTrack, World, passed, failed,
  validity,
}
use skr_crypto.Risk.Checks.{
  check_validity, check_burn_address, check_activation, check_smart_contract, check_usdt_blacklist,
  check_balance, check_sanctions, check_misttrack, check_tronscan, known_burn, zero_body,
  tronscan_flags,
}
use skr_crypto.Risk.Assess.{
  level_from, valid_checks, assess_risk, at_medium, at_high, should_block, high_fail, is_fail,
  is_warn,
}
use skr_crypto.Prelude.{
  ℕ, String, Bool, true, false, ◌&&◌, ◌||◌, not, Option, none, some, List, [], ◌∷◌, any, ◌==◌, leb,
  ◌≡◌, arith, if◌then◌else◌, Bool-cases, inl, inr, length,
}
use skr_crypto.Prelude.Text.{starts_with}

-- A valid TRON address: it starts with T and decodes to 21 bytes, the first of them 0x41.
abbrev pub tron_bytes : Option (List ℕ) → Bool
tron_bytes none = false
tron_bytes (some []) = false
tron_bytes (some (b ∷ body)) = length (b ∷ body) == 21 && b == 0x41

abbrev pub is_valid : String → World → Bool
is_valid address w = starts_with address "T" && tron_bytes w.decoded

abbrev pub says_yes : Reply Bool → Bool
says_yes (returned b) = b
says_yes (raised e) = false

abbrev pub flags_tronscan : Reply TronScan → Bool
flags_tronscan (returned r) = tronscan_flags r
flags_tronscan (raised e) = false

abbrev pub risky_score : Option ℕ → Bool
risky_score none = false
risky_score (some n) = leb 60 n

abbrev pub flags_misttrack : Option (Reply MistTrack) → Bool
flags_misttrack none = false
flags_misttrack (some (raised e)) = false
flags_misttrack (some (returned r)) = any (λ tag. tag) r.high_tags || risky_score r.score

abbrev pub is_listed : Option Bool → Bool
is_listed none = false
is_listed (some b) = b

-- A burn address, a contract, on Tether's or the OFAC list, or flagged by a provider that was asked.
abbrev pub is_dangerous : String → Bool → World → Bool
is_dangerous address external w =
    (known_burn address || zero_body w.decoded)
    || says_yes w.contract
    || says_yes w.is_blacklisted
    || is_listed (Sanctions.contains address w.sanctions)
    || (external && (flags_tronscan w.tronscan || flags_misttrack w.misttrack))

-- An account that the chain does not know, or has no record of.
abbrev pub is_unactivated : Reply Account → Bool
is_unactivated (returned a) = a.create_time == 0
is_unactivated (raised e) = is_not_found e

check_validity_lem :
    (address : String) (decoded : Option (List ℕ))
    → check_validity address decoded
      ≡ (if starts_with address "T" && tron_bytes decoded then passed validity else failed validity)
unfolding check_validity
check_validity_lem address none = ground arith
check_validity_lem address (some []) = ground arith
check_validity_lem address (some (b ∷ body)) = ground arith

-- What a check contributes: a high failure, and a warning.
abbrev Gives : RiskCheck → Bool → Bool → Type 0
Gives c bad odd = (high_fail c ≡ bad) × (is_fail c.status ≡ bad) × (is_warn c.status ≡ odd)

burn-Gives :
    (address : String) (d : Option (List ℕ))
    → Gives (check_burn_address address d) (known_burn address || zero_body d) false
unfolding check_burn_address
burn-Gives address d = ground arith

activation-Gives : (r : Reply Account) → Gives (check_activation r).0 false (is_unactivated r)
unfolding check_activation
activation-Gives r = ground arith

contract-Gives : (r : Reply Bool) → Gives (check_smart_contract r) (says_yes r) false
unfolding check_smart_contract
contract-Gives r = ground arith

blacklist-Gives : (r : Reply Bool) → Gives (check_usdt_blacklist r) (says_yes r) false
unfolding check_usdt_blacklist
blacklist-Gives r = ground arith

sanctions-Gives :
    (address : String) (s : Sanctions.State)
    → Gives (check_sanctions address s) (is_listed (Sanctions.contains address s)) false
unfolding check_sanctions
sanctions-Gives address s = ground arith

balance-Gives : (r : Reply Destination) → Gives (check_balance r).0 false false
unfolding check_balance
balance-Gives r = ground arith

tronscan-Gives : (r : Reply TronScan) → Gives (check_tronscan r) (flags_tronscan r) false
unfolding check_tronscan
tronscan-Gives r = ground arith

misttrack-Gives :
    (r : Option (Reply MistTrack)) → Gives (check_misttrack r) (flags_misttrack r) false
unfolding check_misttrack
misttrack-Gives r = ground arith

valid_level : String → Bool → World → RiskLevel
valid_level address external w =
    if is_dangerous address external w
    then RiskLevel.high
    else if is_unactivated w.account
    then medium
    else low

level-valid_checks :
    (address : String) (external : Bool) (w : World)
    → is_valid address w ≡ true
    → level_from (valid_checks address external w) ≡ valid_level address external w
unfolding level_from valid_checks valid_level
level-valid_checks address false w v = ground (
  arith,
  check_validity_lem address w.decoded,
  burn-Gives address w.decoded,
  activation-Gives w.account,
  contract-Gives w.contract,
  blacklist-Gives w.is_blacklisted,
  sanctions-Gives address w.sanctions,
  balance-Gives w.destination,
)
level-valid_checks address true w v = ground (
  arith,
  check_validity_lem address w.decoded,
  burn-Gives address w.decoded,
  activation-Gives w.account,
  contract-Gives w.contract,
  blacklist-Gives w.is_blacklisted,
  sanctions-Gives address w.sanctions,
  balance-Gives w.destination,
  tronscan-Gives w.tronscan,
  misttrack-Gives w.misttrack,
)

level-assess_risk :
    (address : String) (external : Bool) (w : World)
    → (assess_risk address external w).level
      ≡ (if is_valid address w then valid_level address external w else invalid)
unfolding assess_risk
level-assess_risk address external w = elim (Bool-cases (is_valid address w)) [
  | inl v ↦
      ground (arith, check_validity_lem address w.decoded, level-valid_checks address external w v)
  | inr v ↦ ground (arith, check_validity_lem address w.decoded)
]

-- At `RISK_BLOCK_LEVEL=high` a recipient is blocked exactly when its address is invalid or dangerous.
pub blocked_at_high :
    (address : String) (external : Bool) (w : World)
    → should_block (assess_risk address external w).level at_high
      ≡ (not (is_valid address w) || is_dangerous address external w)
unfolding should_block valid_level
blocked_at_high address external w = rw level-assess_risk (ground arith)

-- At `medium` an account that is not activated is blocked too.
blocked_at_medium :
    (address : String) (external : Bool) (w : World)
    → should_block (assess_risk address external w).level at_medium
      ≡ (not (is_valid address w) || is_dangerous address external w || is_unactivated w.account)
unfolding should_block valid_level
blocked_at_medium address external w = rw level-assess_risk (ground arith)

-- An address that is not valid gets the verdict INVALID and its validity check alone: the report is
-- the same whatever the network and the lists say of it.
invalid_short_circuit :
    (address : String) (external external' : Bool) (w w' : World)
    → w.decoded ≡ w'.decoded
    → is_valid address w ≡ false
    → assess_risk address external w ≡ assess_risk address external' w'
unfolding assess_risk
invalid_short_circuit address external external' w w' e v =
    ground (arith, check_validity_lem address w.decoded, check_validity_lem address w'.decoded)
