-- ===== src/Send/Addresses.antt =====
-- `_validate_tron_address` of skr_crypto/server/routes.py against `_check_validity` of risk.py.
use skr_crypto.Risk.Types.{passed, validity}
use skr_crypto.Risk.Checks.{check_validity}
use skr_crypto.Send.Handler.{validate_tron_address}
use skr_crypto.Prelude.{ℕ, String, Option, none, some, List, [], ◌∷◌, ◌≡◌, ◌↔◌, arith}

-- The handler accepts an address exactly where the validity check of the risk report passes.
validate-check_validity :
    (address : String) (decoded : Option (List ℕ))
    → (validate_tron_address address decoded ≡ none)
      ↔ (check_validity address decoded ≡ passed validity)
unfolding validate_tron_address check_validity
validate-check_validity address none = (λ h. ground arith, λ h. ground arith)
validate-check_validity address (some []) = (λ h. ground arith, λ h. ground arith)
validate-check_validity address (some (b ∷ body)) = (λ h. ground arith, λ h. ground arith)
