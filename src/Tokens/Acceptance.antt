-- ===== src/Tokens/Acceptance.antt =====
-- Which tokens `verify` accepts.
use skr_crypto.Prelude.Chars.{Chars, strip, invalid, chars_eq_refl, chars_eq→eq, is_empty}
use skr_crypto.Prelude.Dict.{lookup, insert}
use skr_crypto.Prelude.Text.{codes}
use skr_crypto.Tokens.{
  Row, Store, Scopes, Fresh, created, canonical, accepted, insufficient_scope, is_active,
  all_active, matches, find_match, scope_satisfies, validate_scopes, create_row, create, unmatched,
  verify_match, check_legacy_token, verify,
}
use skr_crypto.Prelude.{
  ℕ, String, true, false, none, some, List, [], ◌∷◌, ◌≡◌, ◌⊎◌, inl, inr, refl, sym, Option-cases,
  arith, if◌then◌else◌,
}

-- A row with its id stands in the table.
abbrev pub Stored : String → Row → Store → Type 0
Stored i r [] = ⊥
Stored i r ((j, t) ∷ rows) = ((i ≡ j) × (r ≡ t)) ⊎ Stored i r rows

module _ (hash : Chars → List ℕ → List ℕ) where
  find_match-Stored :
      (token : Chars) (i : String) (r : Row) (rows : Store)
      → find_match hash token (all_active rows) ≡ some (i, r)
      → Stored i r rows × (r.revoked_at ≡ none) × (hash token r.salt ≡ r.hash)
  unfolding find_match all_active matches
  find_match-Stored token i r [] h = ground arith
  find_match-Stored token i r ((j, t) ∷ rows) h =
      ground (arith, find_match-Stored token i r rows, chars_eq→eq (hash token t.salt) t.hash)

  -- A token other than AUTH_TOKEN is accepted only as a row of the table that is not revoked, whose
  -- hash is the token's under the row's salt and whose scopes cover the required one.
  pub verify-accepted :
      (auth_token token : Chars) (required i : String) (now : ℕ) (rows : Store)
      → check_legacy_token hash auth_token token ≡ invalid
      → (verify hash auth_token token required now rows).0 ≡ accepted i
      → (r : Row) × Stored i r rows
        × (r.revoked_at ≡ none)
        × (hash token r.salt ≡ r.hash)
        × (scope_satisfies r.scopes required ≡ true)
  unfolding verify verify_match unmatched
  verify-accepted auth_token token required i now rows l h =
      elim (Option-cases (find_match hash token (all_active rows))) [
        | inl missing ↦ absurd (ground (arith, missing))
        | inr ((j, r), found) ↦
            let facts : (j ≡ i) × (scope_satisfies r.scopes required ≡ true) =
              ground (arith, found) in
            let stored = find_match-Stored token j r rows found in
            (r, rw (sym facts.0) stored.0, stored.1, stored.2, facts.1)
      ]

  find_match-insert :
      (token : Chars) (i : String) (r : Row) (rows : Store)
      → lookup i rows ≡ none
      → is_active r ≡ true
      → matches hash token r ≡ true
      → find_match hash token (all_active rows) ≡ none
      → find_match hash token (all_active (insert i r rows)) ≡ some (i, r)
  unfolding find_match all_active insert lookup
  find_match-insert token i r [] h a m n = ground arith
  find_match-insert token i r ((j, t) ∷ rows) h a m n =
      ground (arith, find_match-insert token i r rows)

  -- A token that `create` has minted is accepted for exactly the scopes that its own scopes imply, if its
  -- id is new and no earlier token and not AUTH_TOKEN is the same text or has the same hash.
  pub verify-create :
      (name : String) (given : List String) (scopes : Scopes) (by : String) (fresh : Fresh)
      (now later : ℕ) (auth_token : Chars) (required : String) (rows : Store)
      → is_empty (strip (codes name)) ≡ false
      → validate_scopes given ≡ canonical scopes
      → lookup fresh.id rows ≡ none
      → is_empty fresh.plaintext ≡ false
      → check_legacy_token hash auth_token fresh.plaintext ≡ invalid
      → find_match hash fresh.plaintext (all_active rows) ≡ none
      → let (made, rows') = create hash name given by fresh now rows in
        (made ≡ created fresh.id fresh.plaintext)
        × ((verify hash auth_token fresh.plaintext required later rows').0 ≡ (
            if scope_satisfies scopes required
            then accepted fresh.id
            else insufficient_scope required scopes))
  unfolding create create_row verify verify_match matches
  verify-create name given scopes by fresh now later auth_token required rows n v i e l m =
      let token = fresh.plaintext in
      let r : Row = record {
        name = strip (codes name);
        hash = hash token fresh.salt;
        salt = fresh.salt;
        scopes = scopes;
        created_at = now;
        last_used_at = none;
        revoked_at = none;
        created_by = by;
      } in
      ground (
        arith,
        n,
        v,
        find_match-insert token fresh.id r rows i refl (chars_eq_refl (hash token fresh.salt)) m,
      )
