-- ===== src/Tokens/Tests.antt =====
-- Tokens on small inputs.
use skr_crypto.Prelude.Chars.{Chars, strip}
use skr_crypto.Prelude.Dict.{lookup}
use skr_crypto.Prelude.Text.{codes}
use skr_crypto.Tokens.{
  Row, Store, Fresh, memory, sqlite, canonical, refused, no_scopes, unknown_scope, validate_scopes,
  scope_satisfies, accepted, insufficient_scope, token_revoked, token_error, create, revoke, verify,
  list_tokens, created, check_legacy_token, find_match,
}
use skr_crypto.Tokens.Acceptance.{Stored, verify-accepted, verify-create}
use skr_crypto.Tokens.Access.{
  imported, init_token_store, invalid_key, verify_with_scope, database_tokens_refused,
}
use skr_crypto.Tokens.Revoked.{verifies, revokes, use_all, revoked_forever}
use skr_crypto.Prelude.{
  ℕ, none, List, [], ◌∷◌, ◌++◌, ◌≡◌, ◌≢◌, refl, true, false, length, if◌then◌else◌,
}

-- A stand-in for scrypt.
abbrev joined : Chars → List ℕ → List ℕ
joined token salt = salt ++ token

abbrev drawn : Fresh
drawn = record { id = "i1"; plaintext = codes "skr_a"; salt = 7 ∷ [] }

abbrev minted : Store
unfolding create
minted = (create joined "shop" ("Send " ∷ []) "operator" drawn 3 []).1

scopes_read : validate_scopes ("Send " ∷ "READ" ∷ []) ≡ canonical ("send" ∷ "read" ∷ [])
unfolding validate_scopes codes skr_crypto.Prelude.Chars.chars_eq skr_crypto.Prelude.Text.lower
    strip skr_crypto.Prelude.Chars.is_space
scopes_read = refl

scopes_refused : validate_scopes ("send" ∷ "root" ∷ []) ≡ refused unknown_scope
unfolding validate_scopes codes skr_crypto.Prelude.Chars.chars_eq skr_crypto.Prelude.Text.lower
    strip skr_crypto.Prelude.Chars.is_space
scopes_refused = refl

scopes_missing : validate_scopes [] ≡ refused no_scopes
unfolding validate_scopes
scopes_missing = refl

send_reads : scope_satisfies ("send" ∷ []) "read" ≡ true
unfolding scope_satisfies
send_reads = refl

read_sends_not : scope_satisfies ("read" ∷ []) "send" ≡ false
unfolding scope_satisfies
read_sends_not = refl

wrong_scope :
    (verify joined [] (codes "skr_a") "metrics" 5 minted).0
    ≡ insufficient_scope "metrics" ("send" ∷ [])
unfolding verify create codes skr_crypto.Tokens.all_active strip skr_crypto.Prelude.Chars.is_space
    validate_scopes skr_crypto.Prelude.Chars.chars_eq skr_crypto.Prelude.Text.lower
    skr_crypto.Prelude.Dict.insert
wrong_scope = refl

after_revoke :
    (verify joined [] (codes "skr_a") "send" 5 (revoke sqlite 4 "i1" minted)).0 ≡ token_revoked "i1"
unfolding verify create codes revoke skr_crypto.Tokens.all_active strip
    skr_crypto.Prelude.Chars.is_space validate_scopes skr_crypto.Prelude.Chars.chars_eq
    skr_crypto.Prelude.Text.lower skr_crypto.Prelude.Dict.insert
after_revoke = refl

-- A second revocation moves the time in memory alone.
revoked_again : length (list_tokens true (revoke memory 9 "i1" (revoke memory 4 "i1" minted))) ≡ 1
unfolding list_tokens create codes revoke strip skr_crypto.Prelude.Chars.is_space validate_scopes
    skr_crypto.Prelude.Chars.chars_eq skr_crypto.Prelude.Text.lower skr_crypto.Prelude.Dict.insert
revoked_again = refl

no_token_left : list_tokens false (revoke memory 4 "i1" minted) ≡ []
unfolding list_tokens create codes revoke strip skr_crypto.Prelude.Chars.is_space validate_scopes
    skr_crypto.Prelude.Chars.chars_eq skr_crypto.Prelude.Text.lower skr_crypto.Prelude.Dict.insert
no_token_left = refl

not_ascii : (verify joined (codes "k") (codes "é") "send" 5 []).0 ≡ token_error
unfolding verify codes skr_crypto.Prelude.Chars.compare_digest
not_ascii = refl

verify-accepted_example :
    (r : Row) × Stored "i1" r minted
    × (r.revoked_at ≡ none)
    × (joined (codes "skr_a") r.salt ≡ r.hash)
    × (scope_satisfies r.scopes "read" ≡ true)
unfolding create verify check_legacy_token codes skr_crypto.Tokens.all_active strip
    skr_crypto.Prelude.Chars.is_space validate_scopes skr_crypto.Prelude.Chars.chars_eq
    skr_crypto.Prelude.Text.lower skr_crypto.Prelude.Dict.insert
verify-accepted_example = verify-accepted joined [] (codes "skr_a") "read" "i1" 5 minted refl refl

verify-create_example :
    ((create joined "shop" ("Send " ∷ []) "operator" drawn 3 []).0 ≡ created "i1" (codes "skr_a"))
    × ((verify joined []
          (codes "skr_a")
          "read"
          5
          (create joined "shop" ("Send " ∷ []) "operator" drawn 3 []).1).0
        ≡ (if scope_satisfies ("send" ∷ []) "read"
            then accepted "i1"
            else insufficient_scope "read" ("send" ∷ [])))
unfolding codes check_legacy_token find_match lookup validate_scopes strip
    skr_crypto.Prelude.Chars.is_space skr_crypto.Prelude.Chars.chars_eq
    skr_crypto.Prelude.Text.lower skr_crypto.Tokens.all_active
verify-create_example =
    verify-create joined "shop" ("Send " ∷ []) ("send" ∷ []) "operator" drawn 3 5 [] "read" [] refl
      refl refl refl refl refl

revoked_forever_example :
    (verify joined [] (codes "skr_a") "send" 9 (
      use_all joined [] memory
        (verifies (codes "skr_a") "send" 6 ∷ revokes 7 "i1" ∷ [])
        (revoke memory 4 "i1" minted))).0
    ≢ accepted "i1"
unfolding check_legacy_token
revoked_forever_example =
    revoked_forever joined [] memory "i1" 4
      (verifies (codes "skr_a") "send" 6 ∷ revokes 7 "i1" ∷ []) (codes "skr_a") "send" 9 minted
      (tt, (tt, tt)) refl

database_tokens_refused_example :
    (verify_with_scope joined
      (record { configured = []; environment = [] })
      (codes "skr_a")
      "send"
      5
      (init_token_store minted imported)).0
    ≡ invalid_key
unfolding check_legacy_token codes
database_tokens_refused_example =
    database_tokens_refused joined minted (record { configured = []; environment = [] })
      (codes "skr_a") "send" 5 refl refl refl
