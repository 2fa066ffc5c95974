-- ===== src/Prelude/Integers.antt =====
-- Python's `int` with its texts.
use skr_crypto.Prelude.Chars.{
  Chars, strip, strip_plain, is_space, decimal, decimal-IsDigit, read_digits, read_digits-decimal,
  IsDigit, IsPlain,
}
use skr_crypto.Prelude.Lists.{All}
use skr_crypto.Prelude.Tests.{◌==◌, if◌then◌else◌}
use Prim.Native.Nat.{ℕ, zero, suc, ◌+◌}
use mathlib.Core.Path.{◌≡◌}
use mathlib.Core.Bool.{false}
use mathlib.Core.Option.{Option, none, some}
use mathlib.Core.List.{[], ◌∷◌}
use native.Mathlib.Omega.{arith}

pub data ℤ : Type 0 where
  pos negsuc : ℕ → ℤ

-- `str(i)`
unfoldable pub show : ℤ → Chars
show (pos n) = decimal n
show (negsuc n) = b'-' ∷ decimal (n + 1)

abbrev pub negated : ℕ → ℤ
negated n = elim n [ zero ↦ pos 0 | suc m ↦ negsuc m ]

map_int : (ℕ → ℤ) → Option ℕ → Option ℤ
map_int f none = none
map_int f (some n) = some (f n)

read_stripped : Chars → Option ℤ
unfolding map_int
read_stripped [] = none
read_stripped (c ∷ s) =
    if c == b'-'
    then map_int negated (read_digits false 0 s)
    else if c == b'+'
    then map_int pos (read_digits false 0 s)
    else map_int pos (read_digits false 0 (c ∷ s))

-- `int(s)` of a text of ASCII characters with at most 4300 digits; None is a ValueError.
unfoldable pub read_int : Chars → Option ℤ
unfolding read_stripped
read_int s = read_stripped (strip s)

read_stripped_plain :
    (s : Chars) (n : ℕ)
    → All IsDigit s
    → read_digits false 0 s ≡ some n
    → read_stripped s ≡ some (pos n)
unfolding read_stripped map_int read_digits
read_stripped_plain [] n h r = ground arith
read_stripped_plain (c ∷ s) n h r = ground (arith, r)

module _ {P Q : ℕ → Type 0} (weaken : (c : ℕ) → P c → Q c) where
  pub All-mono : (s : Chars) → All P s → All Q s
  All-mono [] h = tt
  All-mono (c ∷ s) h = (weaken c h.0, All-mono s h.1)

digit-IsPlain : (c : ℕ) → IsDigit c → IsPlain c
unfolding is_space
digit-IsPlain c h = ground arith

pub strip-decimal : (n : ℕ) → strip (decimal n) ≡ decimal n
strip-decimal n = strip_plain (decimal n) (All-mono digit-IsPlain (decimal n) (decimal-IsDigit n))

-- `int(str(n)) == n`
pub read_int-decimal : (n : ℕ) → read_int (decimal n) ≡ some (pos n)
unfolding read_int
read_int-decimal n =
    rw (strip-decimal n)
      (read_stripped_plain (decimal n) n (decimal-IsDigit n) (read_digits-decimal n))
