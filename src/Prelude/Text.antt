-- ===== src/Prelude/Text.antt =====
-- Searches in texts, over their code points.
use Prim.Native.Char.{code}
use Prim.Native.String.{String}
use Prim.Native.Nat.{ℕ, ◌+◌}
use mathlib.Core.Bool.{Bool, true, false, ◌&&◌, ◌||◌}
use mathlib.Core.List.{List, [], ◌∷◌, map}
use skr_crypto.Prelude.Tests.{leb, ◌==◌, if◌then◌else◌}

-- The code points of a text.
unfoldable pub codes : String → List ℕ
codes String.[] = []
codes (String.◌∷◌ c s) = code c ∷ codes s

-- `str.lower`, on ASCII letters: the words that the program looks for are ASCII.
unfoldable pub lower : List ℕ → List ℕ
lower = map (λ c. if leb b'A' c && leb c b'Z' then c + 32 else c)

is_prefix : List ℕ → List ℕ → Bool
is_prefix [] s = true
is_prefix (c ∷ p) [] = false
is_prefix (c ∷ p) (d ∷ s) = c == d && is_prefix p s

-- `p in s`
contains : List ℕ → List ℕ → Bool
contains p [] = is_prefix p []
contains p (c ∷ s) = is_prefix p (c ∷ s) || contains p s

unfoldable pub mentions : String → String → Bool
unfolding codes is_prefix contains
mentions p s = contains (codes p) (codes s)

unfoldable pub mentions_lower : String → String → Bool
unfolding codes lower is_prefix contains
mentions_lower p s = contains (codes p) (lower (codes s))

-- `s.startswith(p)`
unfoldable pub starts_with : String → String → Bool
unfolding codes is_prefix
starts_with s p = is_prefix (codes p) (codes s)
