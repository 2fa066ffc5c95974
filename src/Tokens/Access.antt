-- ===== src/Tokens/Access.antt =====
-- `_verify_with_scope` of skr_crypto/server/security.py, and the two names under which the process has
-- a token store: `tokens.tokens`, and `_token_store`, which security.py imports.
use skr_crypto.Prelude.Chars.{Chars, valid, invalid, type_error, is_empty}
use skr_crypto.Tokens.{
  Scopes, Store, Verified, accepted, token_invalid, token_error, token_revoked, insufficient_scope,
  verify, check_legacy_token, all_active, find_match, verify_match, find_revoked, unmatched,
}
use skr_crypto.Prelude.{ℕ, String, List, [], ◌≡◌, false, arith, if◌then◌else◌}

-- `tokens` at import, an empty dict, which security.py binds to its own name; `init_token_store`
-- binds `tokens.tokens` to another store.
pub record Process : Type 0 where
  pub tokens : Store
  pub token_store : Store

abbrev pub imported : Process
imported = record { tokens = []; token_store = [] }

unfoldable pub init_token_store : Store → Process → Process
init_token_store database p = record p { tokens = database }

-- A caller's token id, or an HTTPException; `failed` is the TypeError of `compare_digest`.
pub data Access : Type 0 where
  caller : String → Access
  missing_key invalid_key revoked_key failed : Access
  forbidden : String → Scopes → Access

abbrev pub access_of : Verified → Access
access_of (accepted i) = caller i
access_of token_invalid = invalid_key
access_of token_error = failed
access_of (token_revoked i) = revoked_key
access_of (insufficient_scope required has) = forbidden required has

-- AUTH_TOKEN as config.py read it at import, and as the environment has it at the call.
pub record AuthTokens : Type 0 where
  pub configured : Chars
  pub environment : Chars

module _ (hash : Chars → List ℕ → List ℕ) where
  -- `api_key` is "" where the header is missing.
  unfoldable pub verify_with_scope : AuthTokens → Chars → String → ℕ → Process → Access × Process
  unfolding check_legacy_token
  verify_with_scope auth api_key required now p =
      let (v, store) = verify hash auth.environment api_key required now p.token_store in
      if is_empty api_key
      then (missing_key, p)
      else elim (check_legacy_token hash auth.configured api_key) [
        | type_error ↦ (failed, p)
        | valid ↦ (caller "legacy", p)
        | invalid ↦ (access_of v, record p { token_store = store })
      ]

  -- After the start of the service a key other than AUTH_TOKEN is refused as invalid, whatever tokens
  -- the database holds that `init_token_store` has opened.
  pub database_tokens_refused :
      (database : Store) (auth : AuthTokens) (api_key : Chars) (required : String) (now : ℕ)
      → is_empty api_key ≡ false
      → check_legacy_token hash auth.configured api_key ≡ invalid
      → check_legacy_token hash auth.environment api_key ≡ invalid
      → (verify_with_scope auth api_key required now (init_token_store database imported)).0
        ≡ invalid_key
  unfolding verify_with_scope verify init_token_store all_active find_match verify_match
      find_revoked unmatched
  database_tokens_refused database auth api_key required now n c e = ground arith
