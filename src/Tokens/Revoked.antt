-- ===== src/Tokens/Revoked.antt =====
-- What becomes of a token after `revoke`.
use skr_crypto.Prelude.Chars.{Chars, strip, invalid, is_empty}
use skr_crypto.Prelude.Dict.{insert}
use skr_crypto.Prelude.Text.{codes}
use skr_crypto.Tokens.{
  Mode, Row, Store, Created, Fresh, Validated, canonical, refused, accepted, is_active, update,
  revoke_row, revoke, all_active, find_match, create_row, create, validate_scopes, verify_match,
  unmatched, check_legacy_token, verify,
}
use skr_crypto.Prelude.{
  ℕ, String, false, Option-cases, Option, none, some, List, [], ◌∷◌, ◌≡◌, ◌≢◌, inl, inr, if_either,
  arith, eq_iff,
}

-- A later use of the table.
pub data Use : Type 0 where
  creates : String → List String → String → Fresh → ℕ → Use
  revokes : ℕ → String → Use
  verifies : Chars → String → ℕ → Use

-- No row with the id is active.
abbrev pub Inactive : String → Store → Type 0
Inactive i [] = Unit {0}
Inactive i ((j, r) ∷ rows) = (j ≡ i → is_active r ≡ false) × Inactive i rows

abbrev pub IsNew : String → Use → Type 0
IsNew i (creates name scopes by fresh now) = fresh.id ≢ i
IsNew i _ = Unit {0}

abbrev pub AllNew : String → List Use → Type 0
AllNew i [] = Unit {0}
AllNew i (u ∷ us) = IsNew i u × AllNew i us

module _ (hash : Chars → List ℕ → List ℕ) (auth_token : Chars) (mode : Mode) where
  unfoldable pub use_once : Use → Store → Store
  use_once (creates name scopes by fresh now) rows = (create hash name scopes by fresh now rows).1
  use_once (revokes now i) rows = revoke mode now i rows
  use_once (verifies token required now) rows = (verify hash auth_token token required now rows).1

  unfoldable pub use_all : List Use → Store → Store
  unfolding use_once
  use_all [] rows = rows
  use_all (u ∷ us) rows = use_all us (use_once u rows)

  revoke-Inactive : (now : ℕ) (i : String) (rows : Store) → Inactive i (revoke mode now i rows)
  unfolding revoke update revoke_row
  revoke-Inactive now i [] = tt
  revoke-Inactive now i ((j, r) ∷ rows) = ground (arith, revoke-Inactive now i rows, eq_iff j i)

  insert-Inactive :
      (i j : String) (r : Row) (rows : Store)
      → j ≢ i
      → Inactive i rows
      → Inactive i (insert j r rows)
  unfolding insert
  insert-Inactive i j r [] n h = (λ e. absurd (n e), tt)
  insert-Inactive i j r ((k, t) ∷ rows) n h = ground (arith, insert-Inactive i j r rows, eq_iff k j)

  -- A change that activates nothing.
  update-Inactive :
      (i j : String) (f : Row → Row) (rows : Store)
      → ((r : Row) → is_active r ≡ false → is_active (f r) ≡ false)
      → Inactive i rows
      → Inactive i (update j f rows)
  unfolding update
  update-Inactive i j f [] k h = tt
  update-Inactive i j f ((l, r) ∷ rows) k h = ground (arith, update-Inactive i j f rows, k r)

  find_match-Inactive :
      (token : Chars) (i j : String) (r : Row) (rows : Store)
      → Inactive i rows
      → find_match hash token (all_active rows) ≡ some (j, r)
      → j ≢ i
  unfolding find_match all_active
  find_match-Inactive token i j r [] h e = ground arith
  find_match-Inactive token i j r ((k, t) ∷ rows) h e =
      ground (arith, find_match-Inactive token i j r rows)

  revoke_row-inactive :
      (now : ℕ) (r : Row) → is_active r ≡ false → is_active (revoke_row mode now r) ≡ false
  unfolding revoke_row
  revoke_row-inactive now r h = ground arith

  verify_match-Inactive :
      (i : String) (token : Chars) (required : String) (now : ℕ) (found : Option (String × Row))
      (rows : Store)
      → Inactive i rows
      → Inactive i (verify_match hash token required now found rows).1
  unfolding verify_match
  verify_match-Inactive i token required now none rows h = h
  verify_match-Inactive i token required now (some (j, r)) rows h =
      let f : Row → Row = λ r. record r { last_used_at = some now } in
      ground (arith, update-Inactive i j f rows (λ r k. k) h)

  verify-Inactive :
      (i : String) (token : Chars) (required : String) (now : ℕ) (rows : Store)
      → Inactive i rows
      → Inactive i (verify hash auth_token token required now rows).1
  unfolding verify
  verify-Inactive i token required now rows h = ground (
    arith,
    verify_match-Inactive i token required now (find_match hash token (all_active rows)) rows,
  )

  create_row-Inactive :
      (i by : String) (fresh : Fresh) (now : ℕ) (name : Chars) (v : Validated) (rows : Store)
      → fresh.id ≢ i
      → Inactive i rows
      → Inactive i (create_row hash by fresh now name v rows).1
  unfolding create_row
  create_row-Inactive i by fresh now name (refused e) rows n h = h
  create_row-Inactive i by fresh now name (canonical scopes) rows n h =
      insert-Inactive i fresh.id _ rows n h

  create-Inactive :
      (i name : String) (scopes : List String) (by : String) (fresh : Fresh) (now : ℕ)
      (rows : Store)
      → fresh.id ≢ i
      → Inactive i rows
      → Inactive i (create hash name scopes by fresh now rows).1
  unfolding create
  create-Inactive i name scopes by fresh now rows n h =
      if_either (λ (p : Created × Store). Inactive i p.1) (is_empty (strip (codes name))) h
        (create_row-Inactive i by fresh now (strip (codes name)) (validate_scopes scopes) rows n h)

  use_all-Inactive :
      (i : String) (us : List Use) (rows : Store)
      → AllNew i us
      → Inactive i rows
      → Inactive i (use_all us rows)
  unfolding use_all use_once revoke
  use_all-Inactive i [] rows n h = h
  use_all-Inactive i (creates name scopes by fresh now ∷ us) rows n h =
      use_all-Inactive i us _ n.1 (create-Inactive i name scopes by fresh now rows n.0 h)
  use_all-Inactive i (revokes now j ∷ us) rows n h =
      use_all-Inactive i us _ n.1
        (update-Inactive i j (revoke_row mode now) rows (revoke_row-inactive now) h)
  use_all-Inactive i (verifies token required now ∷ us) rows n h =
      use_all-Inactive i us _ n.1 (verify-Inactive i token required now rows h)

  -- A revoked token is never accepted again, whatever tokens with other ids are created, revoked and
  -- used in between, in both storage modes.
  pub revoked_forever :
      (i : String) (at : ℕ) (us : List Use) (token : Chars) (required : String) (now : ℕ)
      (rows : Store)
      → AllNew i us
      → check_legacy_token hash auth_token token ≡ invalid
      → (verify hash auth_token token required now (use_all us (revoke mode at i rows))).0
        ≢ accepted i
  unfolding verify verify_match unmatched
  revoked_forever i at us token required now rows n l h =
      let later = use_all us (revoke mode at i rows) in
      let inactive = use_all-Inactive i us (revoke mode at i rows) n (revoke-Inactive at i rows) in
      elim (Option-cases (find_match hash token (all_active later))) [
        | inl missing ↦ ground (arith, missing)
        | inr ((j, r), found) ↦
            ground (arith, found, find_match-Inactive token i j r later inactive found)
      ]
