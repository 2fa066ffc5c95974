-- ===== src/Models.antt =====
-- skr_crypto/server/models.py: the amount and the validation of `SendRequest`. The other models are
-- records of texts that the handlers fill.
use native.Mathlib.Nat.{pow-suc, pow-succ', div-div-eq-div-mul}
use native.Mathlib.Numerals.{one-add}
use skr_crypto.Prelude.Text.{codes}
use skr_crypto.Prelude.{
  ℕ, zero, suc, ◌+◌, ◌*◌, ◌/◌, ◌%◌, ◌^◌, ◌<◌, String, Bool, true, false, ◌&&◌, ◌||◌, Option, refl,
  if◌then◌else◌, none, some, ◌≡◌, arith, length, leb, ltb, ◌==◌,
}
mod Tests

-- A positive or zero Decimal: `whole c e` is c * 10 ** e, and `fraction c p` is c / 10 ** p.
pub data Decimal : Type 0 where
  whole fraction : ℕ → ℕ → Decimal

pub record SendRequest : Type 0 where
  pub to_address : String
  pub amount : Decimal
  pub idempotency_key : String
  pub wallet : Option String

unfoldable pub is_positive : Decimal → Bool
is_positive (whole c e) = ltb 0 c
is_positive (fraction c p) = ltb 0 c

-- `amount_max_decimals`: the exponent is at least -6.
unfoldable pub six_decimals : Decimal → Bool
six_decimals (whole c e) = true
six_decimals (fraction c p) = leb p 6

unfoldable pub count_chars : String → ℕ
unfolding codes
count_chars s = length (codes s)

wallet_fits : Option String → Bool
wallet_fits none = true
wallet_fits (some w) = leb (count_chars w) 64

-- Pydantic accepts the request.
unfoldable pub accepts : SendRequest → Bool
unfolding wallet_fits is_positive six_decimals
accepts r =
    count_chars r.to_address == 34
    && is_positive r.amount
    && (leb 1 (count_chars r.idempotency_key) && leb (count_chars r.idempotency_key) 128)
    && wallet_fits r.wallet
    && six_decimals r.amount

-- How many digits of `n` are beyond the 28 of Python's decimal context; `n` is enough fuel.
unfoldable pub excess : ℕ → ℕ → ℕ
excess zero n = 0
excess (suc fuel) n = elim (ltb n (10 ^ 28)) [ true ↦ 0 | false ↦ 1 + excess fuel (n / 10) ]

-- n / m as a whole number, a half to the even one.
unfoldable pub round_half_even : ℕ → ℕ → ℕ
round_half_even n m =
    let q = n / m in
    let twice = 2 * (n % m) in if ltb m twice || (twice == m && q % 2 == 1) then q + 1 else q

-- The coefficient of a product in that context, at the product's own exponent.
unfoldable pub in_context : ℕ → ℕ
unfolding excess round_half_even
in_context n = let unit = 10 ^ excess n n in round_half_even n unit * unit

-- `int(amount * Decimal(10 ** USDT_DECIMALS))`: micro-USDT, rounded down.
unfoldable pub to_micro : Decimal → ℕ
unfolding in_context
to_micro (whole c e) = in_context (c * 1000000) * 10 ^ e
to_micro (fraction c p) = in_context (c * 1000000) / 10 ^ p

-- The digits of an amount as a number.
abbrev pub coefficient : Decimal → ℕ
coefficient (whole c e) = c
coefficient (fraction c p) = c

-- c * 10 ** 6 and the amount's own denominator, so that equal products mean equal amounts.
abbrev pub denominator : Decimal → ℕ
denominator (whole c e) = 1
denominator (fraction c p) = 10 ^ p

abbrev pub numerator : Decimal → ℕ
numerator (whole c e) = c * 10 ^ e
numerator (fraction c p) = c

IsExact : Decimal → Type 0
IsExact d = (0 < to_micro d) × (to_micro d * denominator d ≡ numerator d * 1000000)

below_power : (n : ℕ) → n < 10 ^ n
below_power zero = omega arith
below_power (suc n) = simp pow-suc (omega (arith, below_power n))

ten_pow : (k : ℕ) → 10 ^ (1 + k) ≡ 10 * 10 ^ k
ten_pow k = rw (one-add k) (pow-succ' 10 k)

excess-fits : (fuel n : ℕ) → n < 10 ^ fuel → n / 10 ^ excess fuel n < 10 ^ 28
unfolding excess
excess-fits zero n h = omega arith
excess-fits (suc fuel) n h = fits (excess-fits fuel (n / 10)) (ltb n (10 ^ 28)) refl
  where
    fits :
        (n / 10 < 10 ^ fuel → n / 10 / 10 ^ excess fuel (n / 10) < 10 ^ 28)
        → (b : Bool) → ltb n (10 ^ 28) ≡ b
        → n / 10 ^ elim b [ true ↦ 0 | false ↦ 1 + excess fuel (n / 10) ] < 10 ^ 28
    fits ih true e = ground arith
    fits ih false e =
        rw (ten_pow (excess fuel (n / 10)), ← div-div-eq-div-mul n 10 (10 ^ excess fuel (n / 10)))
          (ih (omega (arith, pow-suc 10 fuel)))

-- The fuel is enough: at most 28 digits are left.
excess-enough : (n : ℕ) → n / 10 ^ excess n n < 10 ^ 28
excess-enough n = excess-fits n n (below_power n)
