-- ===== src/Prelude/Chars.antt =====
-- Texts as lists of code points: Python's `split`, `strip`, `replace`, `str` and `int` on them.
use skr_crypto.Prelude.Lists.{All}
use skr_crypto.Prelude.Tests.{leb, ltb, ◌==◌, if◌then◌else◌}
use Prim.Native.Nat.{ℕ, zero, suc, ◌+◌, ◌-◌, ◌*◌, ◌/◌, ◌%◌, ◌≤◌, ◌<◌}
use mathlib.Core.Path.{◌≡◌, refl}
use mathlib.Core.Logic.{◌≢◌}
use mathlib.Core.Bool.{Bool, true, false, ◌&&◌, ◌||◌}
use mathlib.Core.Option.{Option, none, some}
use mathlib.Core.List.{List, [], ◌∷◌, ◌++◌}
use native.Mathlib.Omega.{arith}

abbrev pub Chars : Type 0
Chars = List ℕ

unfoldable pub chars_eq : Chars → Chars → Bool
chars_eq [] [] = true
chars_eq [] (d ∷ ds) = false
chars_eq (c ∷ cs) [] = false
chars_eq (c ∷ cs) (d ∷ ds) = c == d && chars_eq cs ds

pub chars_eq_refl : (s : Chars) → chars_eq s s ≡ true
unfolding chars_eq
chars_eq_refl [] = refl
chars_eq_refl (c ∷ s) = ground (arith, chars_eq_refl s)

pub chars_eq→eq : (s t : Chars) → chars_eq s t ≡ true → s ≡ t
unfolding chars_eq
chars_eq→eq [] [] h = refl
chars_eq→eq [] (d ∷ ds) h = ground arith
chars_eq→eq (c ∷ cs) [] h = ground arith
chars_eq→eq (c ∷ cs) (d ∷ ds) h = ground (arith, chars_eq→eq cs ds)

is_ascii : Chars → Bool
is_ascii [] = true
is_ascii (c ∷ s) = ltb c 128 && is_ascii s

-- `hmac.compare_digest` of texts raises a TypeError unless both are ASCII.
pub data Check : Type 0 where
  valid invalid type_error : Check

unfoldable pub compare_digest : Chars → Chars → Check
unfolding is_ascii
compare_digest a b =
    if is_ascii a && is_ascii b then if chars_eq a b then valid else invalid else type_error

-- `not s`
abbrev pub is_empty : Chars → Bool
is_empty [] = true
is_empty (c ∷ s) = false

is_ascii-below : (s : Chars) → All (λ c. c < 128) s → is_ascii s ≡ true
unfolding is_ascii
is_ascii-below [] h = refl
is_ascii-below (c ∷ s) h = ground (arith, is_ascii-below s)

pub compare_digest_same : (s : Chars) → All (λ c. c < 128) s → compare_digest s s ≡ valid
unfolding compare_digest
compare_digest_same s h = ground (arith, is_ascii-below s, chars_eq_refl s)

pub compare_digest-valid : (a b : Chars) → compare_digest a b ≡ valid → a ≡ b
unfolding compare_digest
compare_digest-valid a b h = ground (arith, chars_eq→eq a b)

-- `str.isspace` of one character.
unfoldable pub is_space : ℕ → Bool
is_space c =
    (leb 9 c && leb c 13)
    || (leb 28 c && leb c 32)
    || (c == 133 || c == 160 || c == 5760)
    || (leb 8192 c && leb c 8202)
    || (c == 8232 || c == 8233 || c == 8239)
    || (c == 8287 || c == 12288)

unfoldable pub lstrip : Chars → Chars
lstrip [] = []
lstrip (c ∷ s) = let rest = lstrip s in if is_space c then rest else c ∷ s

add_front : ℕ → Chars → Chars
add_front c [] = if is_space c then [] else c ∷ []
add_front c (d ∷ s) = c ∷ d ∷ s

unfoldable pub rstrip : Chars → Chars
unfolding add_front
rstrip [] = []
rstrip (c ∷ s) = add_front c (rstrip s)

-- `s.strip()`
unfoldable pub strip : Chars → Chars
unfolding lstrip rstrip
strip s = lstrip (rstrip s)

before_first : ℕ → List Chars → List Chars
before_first c [] = (c ∷ []) ∷ []
before_first c (p ∷ ps) = (c ∷ p) ∷ ps

-- `s.split(c)`, of a separator of one character.
unfoldable pub split : ℕ → Chars → List Chars
unfolding before_first
split c [] = [] ∷ []
split c (d ∷ s) = let rest = split c s in if d == c then [] ∷ rest else before_first d rest

pair_front : ℕ → Option (Chars × Chars) → Option (Chars × Chars)
pair_front d none = none
pair_front d (some (k, v)) = some (d ∷ k, v)

-- `s.split(c, 1)`, where `c` occurs in `s`.
unfoldable pub split_once : ℕ → Chars → Option (Chars × Chars)
unfolding pair_front
split_once c [] = none
split_once c (d ∷ s) =
    let rest = split_once c s in if d == c then some ([], s) else pair_front d rest

digits : ℕ → ℕ → Chars
digits zero n = (48 + n % 10) ∷ []
digits (suc k) n =
    let rest = digits k (n / 10) in if ltb n 10 then (48 + n) ∷ [] else rest ++ (48 + n % 10) ∷ []

-- `str(n)`; a number has fewer digits than its value and one more.
unfoldable pub decimal : ℕ → Chars
unfolding digits
decimal n = digits n n

unfoldable pub is_digit : ℕ → Bool
is_digit c = leb 48 c && leb c 57

-- `int(s)` past the sign, on ASCII digits with single underscores between them; the flag says that a
-- digit stands before.
unfoldable pub read_digits : Bool → ℕ → Chars → Option ℕ
unfolding is_digit
read_digits seen acc [] = if seen then some acc else none
read_digits seen acc (c ∷ s) =
    let next = read_digits true (acc * 10 + (c - 48)) s in
    let gap = read_digits false acc s in
    if is_digit c then next else if seen && c == 95 then gap else none

module _ (P : ℕ → Type 0) where
  pub All-append : (s t : Chars) → All P s → All P t → All P (s ++ t)
  All-append [] t h k = k
  All-append (c ∷ s) t h k = (h.0, All-append s t h.1 k)

abbrev pub IsPlain : ℕ → Type 0
IsPlain c = is_space c ≡ false

lstrip_plain : (s : Chars) → All IsPlain s → lstrip s ≡ s
unfolding lstrip
lstrip_plain [] h = refl
lstrip_plain (c ∷ s) h = rw h.0

rstrip_plain : (s : Chars) → All IsPlain s → rstrip s ≡ s
unfolding rstrip
rstrip_plain [] h = refl
rstrip_plain (c ∷ []) h = rw h.0
rstrip_plain (c ∷ d ∷ s) h = rw (rstrip_plain (d ∷ s) h.1)

-- Without blanks there is nothing to strip.
pub strip_plain : (s : Chars) → All IsPlain s → strip s ≡ s
unfolding strip
strip_plain s h = rw (rstrip_plain s h) (lstrip_plain s h)

pub split-append : (c : ℕ) (s t : Chars) → All (λ d. d ≢ c) s → split c (s ++ c ∷ t) ≡ s ∷ split c t
unfolding split
split-append c [] t h = ground arith
split-append c (d ∷ s) t h = ground (arith, split-append c s t)

pub split_plain : (c : ℕ) (s : Chars) → All (λ d. d ≢ c) s → split c s ≡ s ∷ []
unfolding split
split_plain c [] h = refl
split_plain c (d ∷ s) h = ground (arith, split_plain c s)

pub split_once-append :
    (c : ℕ) (s t : Chars) → All (λ d. d ≢ c) s → split_once c (s ++ c ∷ t) ≡ some (s, t)
unfolding split_once
split_once-append c [] t h = ground arith
split_once-append c (d ∷ s) t h = ground (arith, split_once-append c s t)

abbrev pub IsDigit : ℕ → Type 0
IsDigit c = (48 ≤ c) × (c ≤ 57)

digits-IsDigit : (k n : ℕ) → All IsDigit (digits k n)
unfolding digits
digits-IsDigit zero n = ground arith
digits-IsDigit (suc k) n =
    ground (
      arith,
      digits-IsDigit k (n / 10),
      All-append IsDigit (digits k (n / 10)) ((48 + n % 10) ∷ []),
    )

pub decimal-IsDigit : (n : ℕ) → All IsDigit (decimal n)
unfolding decimal
decimal-IsDigit n = digits-IsDigit n n

read_digits-append :
    (seen : Bool) (acc c : ℕ) (s : Chars) (n : ℕ)
    → All IsDigit s
    → IsDigit c
    → read_digits seen acc s ≡ some n
    → read_digits seen acc (s ++ c ∷ []) ≡ some (n * 10 + (c - 48))
unfolding read_digits
read_digits-append seen acc c [] n h k r = ground arith
read_digits-append seen acc c (d ∷ s) n h k r =
    ground (arith, read_digits-append true (acc * 10 + (d - 48)) c s n)

read_digits-digits : (k n : ℕ) (seen : Bool) → n ≤ k → read_digits seen 0 (digits k n) ≡ some n
unfolding digits read_digits
read_digits-digits zero n seen h = ground arith
read_digits-digits (suc k) n seen h = ground (
  arith,
  read_digits-digits k (n / 10) seen,
  digits-IsDigit k (n / 10),
  read_digits-append seen 0 (48 + n % 10) (digits k (n / 10)) (n / 10),
)

-- `int(str(n)) == n`
pub read_digits-decimal : (n : ℕ) → read_digits false 0 (decimal n) ≡ some n
unfolding decimal
read_digits-decimal n = read_digits-digits n n false (omega arith)
