-- ===== src/Alerts/Message/Escapes.antt =====
-- What `_esc` leaves of a text.
use skr_crypto.Alerts.Message.{replace, esc}
use skr_crypto.Prelude.Chars.{Chars}
use skr_crypto.Prelude.Text.{codes}
use skr_crypto.Prelude.{
  ℕ, zero, suc, Bool, true, false, ◌&&◌, ◌≢◌, [], ◌∷◌, ◌++◌, ◌≡◌, refl, arith, All, ◌==◌,
  if◌then◌else◌,
}

-- `_esc` of one character.
abbrev escaped : ℕ → Chars
escaped c =
    if c == b'&'
    then codes "&amp;"
    else if c == b'<'
    then codes "&lt;"
    else if c == b'>'
    then codes "&gt;"
    else c ∷ []

escape_each : Chars → Chars
escape_each [] = []
escape_each (c ∷ s) = escaped c ++ escape_each s

esc-escape_each : (s : Chars) → esc s ≡ escape_each s
unfolding esc replace escape_each codes
esc-escape_each [] = refl
esc-escape_each (c ∷ s) = ground (arith, esc-escape_each s)

begins : Chars → Chars → Bool
begins [] s = true
begins (c ∷ p) [] = false
begins (c ∷ p) (d ∷ s) = d == c && begins p s

-- The text that HTML shows for `s` where only the three named characters are used, past the first
-- `skip` characters.
unfoldable pub shown : ℕ → Chars → Chars
unfolding begins codes
shown skip [] = []
shown (suc k) (c ∷ s) = shown k s
shown zero (c ∷ s) =
    let plain = shown zero s in
    let past_three = shown 3 s in
    let past_four = shown 4 s in
    if c == b'&'
    then if begins (codes "amp;") s
      then b'&' ∷ past_four
      else if begins (codes "lt;") s
      then b'<' ∷ past_three
      else if begins (codes "gt;") s
      then b'>' ∷ past_three
      else c ∷ plain
    else c ∷ plain

abbrev pub NoBracket : ℕ → Type 0
NoBracket c = (c ≢ b'<') × (c ≢ b'>')

escape_each-NoBracket : (s : Chars) → All NoBracket (escape_each s)
unfolding escape_each codes
escape_each-NoBracket [] = tt
escape_each-NoBracket (c ∷ s) = ground (arith, escape_each-NoBracket s)

shown-escape_each : (s : Chars) → shown 0 (escape_each s) ≡ s
unfolding shown escape_each codes begins
shown-escape_each [] = refl
shown-escape_each (c ∷ s) = ground (arith, shown-escape_each s)

-- An escaped text has no angle bracket left, and HTML shows it as it was.
pub shown-esc : (s : Chars) → All NoBracket (esc s) × (shown 0 (esc s) ≡ s)
shown-esc s = rw (esc-escape_each s) (escape_each-NoBracket s, shown-escape_each s)
