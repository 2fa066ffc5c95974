-- ===== src/Tokens.antt =====
-- skr_crypto/server/tokens.py: scopes, the token table, and the verification of a presented token. The
-- in-memory dict and the SQLite table are one list of rows by id. scrypt, the random token, salt and
-- id, and the time are arguments. Presented tokens are code points. The two closing helpers,
-- `close` and the legacy warning, change nothing here.
pub mod Access
mod Acceptance
mod Revoked
mod Tests
use skr_crypto.Prelude.Chars.{
  Chars, chars_eq, strip, Check, valid, invalid, type_error, compare_digest, is_empty,
}
use skr_crypto.Prelude.Dict.{Dict, lookup, insert}
use skr_crypto.Prelude.Text.{codes, lower}
use skr_crypto.Prelude.{
  ℕ, String, Bool, true, false, ◌&&◌, not, Option, none, some, List, [], ◌∷◌, ◌++◌, any, str_eq,
  if◌then◌else◌,
}

-- A set of scopes, in any order.
abbrev pub Scopes : Type 0
Scopes = List String

abbrev pub has_scope : String → Scopes → Bool
has_scope s scopes = any (λ t. str_eq t s) scopes

-- ALL_SCOPES
abbrev pub all_scopes : Scopes
all_scopes = "admin" ∷ "send" ∷ "read" ∷ "metrics" ∷ []

-- `_IMPLIES.get(s, {s})`
unfoldable pub implies : String → Scopes
implies s =
    if str_eq s "admin"
    then all_scopes
    else if str_eq s "send"
    then "send" ∷ "read" ∷ []
    else s ∷ []

-- `_expand_scopes`
unfoldable pub expand_scopes : Scopes → Scopes
unfolding implies
expand_scopes [] = []
expand_scopes (s ∷ scopes) = implies s ++ expand_scopes scopes

unfoldable pub scope_satisfies : Scopes → String → Bool
unfolding expand_scopes
scope_satisfies scopes required = has_scope required (expand_scopes scopes)

-- `TokenError`, by its cause.
pub data CreateError : Type 0 where
  no_scopes unknown_scope empty_name : CreateError

-- `s.strip().lower()` if it is a scope.
parse_scope : String → Scopes → Option String
parse_scope s [] = none
parse_scope s (t ∷ ts) =
    let rest = parse_scope s ts in
    if chars_eq (lower (strip (codes s))) (codes t) then some t else rest

add_scope : Option String → Option Scopes → Option Scopes
add_scope none scopes = none
add_scope (some s) none = none
add_scope (some s) (some scopes) = some (s ∷ scopes)

parse_scopes : List String → Option Scopes
unfolding parse_scope add_scope
parse_scopes [] = some []
parse_scopes (s ∷ ss) = add_scope (parse_scope s all_scopes) (parse_scopes ss)

pub data Validated : Type 0 where
  canonical : Scopes → Validated
  refused : CreateError → Validated

abbrev validated : Option Scopes → Validated
validated none = refused unknown_scope
validated (some scopes) = canonical scopes

unfoldable pub validate_scopes : List String → Validated
unfolding parse_scopes
validate_scopes [] = refused no_scopes
validate_scopes (s ∷ ss) = validated (parse_scopes (s ∷ ss))

-- A row without its id; times are those of the clock.
pub record Row : Type 0 where
  pub name : Chars
  pub hash : List ℕ
  pub salt : List ℕ
  pub scopes : Scopes
  pub created_at : ℕ
  pub last_used_at : Option ℕ
  pub revoked_at : Option ℕ
  pub created_by : String

abbrev pub Store : Type 0
Store = Dict Row

abbrev pub is_active : Row → Bool
is_active r = elim r.revoked_at [ none ↦ true | some t ↦ false ]

-- A change of the row with an id.
unfoldable pub update : String → (Row → Row) → Store → Store
update i f [] = []
update i f ((j, r) ∷ rows) =
    let rest = update i f rows in if str_eq j i then (j, f r) ∷ rest else (j, r) ∷ rest

-- `_all_active`
unfoldable pub all_active : Store → Store
all_active [] = []
all_active ((j, r) ∷ rows) =
    let rest = all_active rows in if is_active r then (j, r) ∷ rest else rest

-- What `create` draws at random.
pub record Fresh : Type 0 where
  pub id : String
  pub plaintext : Chars
  pub salt : List ℕ

pub data Created : Type 0 where
  created : String → Chars → Created
  rejected : CreateError → Created

-- The in-memory dict and the table differ in `revoke` alone.
pub data Mode : Type 0 where
  memory sqlite : Mode

revoke_row : Mode → ℕ → Row → Row
revoke_row memory now r = record r { revoked_at = some now }
revoke_row sqlite now r = if is_active r then record r { revoked_at = some now } else r

unfoldable pub revoke : Mode → ℕ → String → Store → Store
unfolding update revoke_row
revoke mode now i rows = update i (revoke_row mode now) rows

unfoldable pub list_tokens : Bool → Store → Store
unfolding all_active
list_tokens include_revoked rows = if include_revoked then rows else all_active rows

unfoldable pub get : String → Store → Option Row
get i rows = lookup i rows

pub data Verified : Type 0 where
  accepted : String → Verified
  token_invalid token_error : Verified
  token_revoked : String → Verified
  insufficient_scope : String → Scopes → Verified

-- `hash token salt` is scrypt.
module _ (hash : Chars → List ℕ → List ℕ) where
  create_row : String → Fresh → ℕ → Chars → Validated → Store → Created × Store
  create_row by fresh now name (refused e) rows = (rejected e, rows)
  create_row by fresh now name (canonical scopes) rows =
      let r : Row = record {
        name = name;
        hash = hash fresh.plaintext fresh.salt;
        salt = fresh.salt;
        scopes = scopes;
        created_at = now;
        last_used_at = none;
        revoked_at = none;
        created_by = by;
      } in
      (created fresh.id fresh.plaintext, insert fresh.id r rows)

  unfoldable pub create : String → List String → String → Fresh → ℕ → Store → Created × Store
  unfolding create_row
  create name scopes by fresh now rows =
      let stripped = strip (codes name) in
      if is_empty stripped
      then (rejected empty_name, rows)
      else create_row by fresh now stripped (validate_scopes scopes) rows

  -- The comparison of a row's hash with that of the token; both are bytes.
  unfoldable pub matches : Chars → Row → Bool
  matches token r = chars_eq (hash token r.salt) r.hash

  -- The first row that the token matches.
  unfoldable pub find_match : Chars → Store → Option (String × Row)
  unfolding matches
  find_match token [] = none
  find_match token ((j, r) ∷ rows) =
      let rest = find_match token rows in if matches token r then some (j, r) else rest

  unfoldable pub find_revoked : Chars → Store → Option String
  unfolding matches
  find_revoked token [] = none
  find_revoked token ((j, r) ∷ rows) =
      let rest = find_revoked token rows in
      if not (is_active r) && matches token r then some j else rest

  unfoldable pub unmatched : Option String → Verified
  unmatched none = token_invalid
  unmatched (some i) = token_revoked i

  verify_match : Chars → String → ℕ → Option (String × Row) → Store → Verified × Store
  unfolding find_revoked scope_satisfies unmatched
  verify_match token required now none rows = (unmatched (find_revoked token rows), rows)
  verify_match token required now (some (i, r)) rows =
      if scope_satisfies r.scopes required
      then (accepted i, update i (λ r. record r { last_used_at = some now }) rows)
      else (insufficient_scope required r.scopes, rows)

  -- `_check_legacy_token`, of the value of AUTH_TOKEN, "" if it is not set.
  unfoldable pub check_legacy_token : Chars → Chars → Check
  check_legacy_token auth_token token =
      if is_empty auth_token then invalid else compare_digest token auth_token

  unfoldable pub verify : Chars → Chars → String → ℕ → Store → Verified × Store
  unfolding verify_match check_legacy_token find_match scope_satisfies
  verify auth_token token required now rows =
      if is_empty token then (token_invalid, rows) else elim (check_legacy_token auth_token token) [
        | type_error ↦ (token_error, rows)
        | valid ↦
            if scope_satisfies ("admin" ∷ []) required
            then (accepted "legacy", rows)
            else (insufficient_scope required ("admin" ∷ []), rows)
        | invalid ↦ verify_match token required now (find_match token (all_active rows)) rows
      ]
