-- ===== src/Risk/Tests.antt =====
-- The verdict on concrete recipients.
use skr_crypto.Exceptions.{Exc, returned, raised}
use skr_crypto.Sanctions
use skr_crypto.Sanctions.{Sources}
use skr_crypto.Risk.Types.{RiskLevel, World, sanctions, passed}
use skr_crypto.Risk.Checks.{check_sanctions}
use skr_crypto.Risk.Assess.{assess_risk}
use skr_crypto.Risk.Listing.{no_source_passes}
use skr_crypto.Prelude.{ℕ, true, false, none, some, List, [], ◌∷◌, ◌≡◌, refl}

abbrev down : Exc
down = record { class_name = "ConnectionError"; text = "unreachable" }

abbrev body : List ℕ
body =
    0x41 ∷ 1 ∷ 2 ∷ 3 ∷ 4 ∷ 5 ∷ 6 ∷ 7 ∷ 8 ∷ 9 ∷ 10 ∷ 11 ∷ 12 ∷ 13 ∷ 14 ∷ 15 ∷ 16 ∷ 17 ∷ 18 ∷ 19 ∷ 20
    ∷ []

abbrev cold : World
cold = record {
  decoded = some body;
  account = returned (record { create_time = 0; latest_opration_time = 0 });
  contract = raised down;
  is_blacklisted = returned false;
  destination = returned (record { activated = true; trx_balance = 0; usdt_balance = 0 });
  sanctions = record { addresses = some ("Tbad" ∷ []); loaded_from = Sanctions.url };
  tronscan = returned (record { is_black = false; entries = true ∷ []; red_tag = false });
  misttrack = none;
}

-- The same recipient is low risk, medium risk or high risk by what is asked and how.
cold_levels :
    ((assess_risk "Tgood" false cold).level ≡ RiskLevel.medium)
    × ((assess_risk "Tgood" true cold).level ≡ RiskLevel.high)
    × ((assess_risk "Tbad" false cold).level ≡ RiskLevel.high)
    × ((assess_risk "Xgood" false cold).level ≡ RiskLevel.invalid)
unfolding assess_risk skr_crypto.Risk.Checks.check_validity skr_crypto.Prelude.Text.starts_with
    skr_crypto.Risk.Assess.level_from skr_crypto.Risk.Checks.check_burn_address
    skr_crypto.Risk.Checks.known_burn skr_crypto.Risk.Checks.zero_body
    skr_crypto.Risk.Checks.check_activation skr_crypto.Risk.Checks.check_smart_contract
    skr_crypto.Risk.Checks.check_usdt_blacklist check_sanctions Sanctions.contains Sanctions.member
    skr_crypto.Risk.Checks.check_balance skr_crypto.Risk.Checks.check_tronscan
    skr_crypto.Risk.Checks.tronscan_flags
cold_levels = (refl, refl, refl, refl)

abbrev offline : Sources
offline = record { refresh = true; download = raised down; cached = none }

abbrev online : Sources
online = record { refresh = true; download = returned ("# SDN" ∷ "Tbad" ∷ []); cached = none }

no_source_passes_example : check_sanctions "Tbad" (Sanctions.load offline).1 ≡ passed sanctions
no_source_passes_example = no_source_passes "Tbad" offline refl refl
