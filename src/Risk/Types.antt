-- ===== src/Risk/Types.antt =====
-- The data of skr_crypto/server/risk.py. What the network and base58 answer for the address is a record of
-- replies; the messages, which are for people, are left out, but every status and severity is kept.
use skr_crypto.Exceptions.{Reply}
use skr_crypto.Sanctions
use skr_crypto.TronClient.Queries.{Destination}
use skr_crypto.Prelude.{ℕ, String, Bool, Option, List}

pub data RiskLevel : Type 0 where
  low medium high invalid : RiskLevel

pub data CheckStatus : Type 0 where
  ok warn fail skip : CheckStatus

-- The texts "info", "warn" and "high".
pub data Severity : Type 0 where
  info warn high : Severity

-- The `name` of a check.
pub data CheckName : Type 0 where
  validity burn_address activation smart_contract usdt_blacklist : CheckName
  sanctions balance external_tronscan external_misttrack : CheckName

pub record RiskCheck : Type 0 where
  pub name : CheckName
  pub status : CheckStatus
  pub severity : Severity

-- The dict of `get_account`: a missing field and an empty dict read as zero, which is as false.
pub record Account : Type 0 where
  pub create_time : ℕ
  pub latest_opration_time : ℕ

-- TronScan's reply: `isBlack`, the `black` flag of each list entry, and whether a red tag is set.
pub record TronScan : Type 0 where
  pub is_black : Bool
  pub entries : List Bool
  pub red_tag : Bool

-- MistTrack's reply: the score, if it is a number, and for each tag whether its type is high or fatal.
pub record MistTrack : Type 0 where
  pub score : Option ℕ
  pub high_tags : List Bool

-- What the outside world answers for an address. `misttrack` is `none` where no API key is set.
pub record World : Type 0 where
  pub decoded : Option (List ℕ)
  pub account : Reply Account
  pub contract : Reply Bool
  pub is_blacklisted : Reply Bool
  pub destination : Reply Destination
  pub sanctions : Sanctions.State
  pub tronscan : Reply TronScan
  pub misttrack : Option (Reply MistTrack)

-- The `summary` dict.
pub record Summary : Type 0 where
  pub create_time_ms : Option ℕ
  pub latest_opration_time_ms : Option ℕ
  pub found_balance : Option Destination

pub record RiskReport : Type 0 where
  pub address : String
  pub level : RiskLevel
  pub checks : List RiskCheck
  pub summary : Summary

abbrev pub passed : CheckName → RiskCheck
passed n = record { name = n; status = ok; severity = info }

abbrev pub failed : CheckName → RiskCheck
failed n = record { name = n; status = fail; severity = Severity.high }

abbrev pub skipped : CheckName → RiskCheck
skipped n = record { name = n; status = skip; severity = info }

abbrev pub warned : CheckName → RiskCheck
warned n = record { name = n; status = CheckStatus.warn; severity = Severity.warn }
