-- ===== src/TronClient/Fees.antt =====
-- `energy_price_sun`, `estimate_transfer_energy` and `compute_fee_limit_sun` of
-- skr_crypto/server/tron_client.py.
use skr_crypto.Exceptions.{Exc, Reply, returned, raised}
use skr_crypto.Prelude.{
  ℕ, ◌+◌, ◌-◌, ◌*◌, ◌/◌, ◌≤◌, ◌<◌, String, Bool, ◌||◌, Option, none, some, List, [], ◌∷◌, ◌≡◌, ◌≢◌,
  arith, ltb, leb, ◌==◌, str_eq, min, max, if◌then◌else◌,
}

-- The configuration: `USDT_FEE_LIMIT_SUN`, `TRON_ENERGY_PRICE_SUN_FALLBACK`, and the Decimal
-- `FEE_LIMIT_SAFETY_MULT` as a fraction.
pub record Config : Type 0 where
  pub fee_limit_sun : ℕ
  pub price_fallback : ℕ
  pub mult_num : ℕ
  pub mult_den : ℕ

-- `_MIN_FEE_LIMIT_SUN`
abbrev pub min_fee_limit_sun : ℕ
min_fee_limit_sun = 5000000

-- `_ENERGY_PRICE_TTL_SEC`
abbrev pub price_ttl : ℕ
price_ttl = 3600

-- `_energy_price_sun` and `_energy_price_fetched_at`.
pub record PriceCache : Type 0 where
  pub price : Option ℕ
  pub fetched_at : ℕ

-- The chain's parameters: a key, and its value if that is an integer.
abbrev pub Parameters : Type 0
Parameters = List (String × Option ℕ)

positive : Option ℕ → Option ℕ
positive none = none
positive (some v) = if ltb 0 v then some v else none

is_energy_fee : String → Bool
is_energy_fee key = str_eq key "getEnergyFee" || str_eq key "EnergyFee"

-- The loop with its `break`; the price starts as the fallback.
unfoldable pub find_price : ℕ → Parameters → ℕ
unfolding positive is_energy_fee
find_price fallback [] = fallback
find_price fallback ((key, v) ∷ rest) =
    let later = find_price fallback rest in
    if is_energy_fee key then elim (positive v) [ none ↦ later | some p ↦ p ] else later

fresh_price : ℕ → PriceCache → Option ℕ
fresh_price now c = elim c.price [
  | none ↦ none
  | some p ↦ if ltb (now - c.fetched_at) price_ttl then some p else none
]

refetched : ℕ → ℕ → Reply Parameters → Option ℕ → ℕ
refetched now fallback (returned params) old = find_price fallback params
refetched now fallback (raised e) none = fallback
refetched now fallback (raised e) (some p) = p

-- The clock is read twice, the second time under the lock.
unfoldable pub energy_price_sun : Config → ℕ → ℕ → Reply Parameters → PriceCache → ℕ × PriceCache
unfolding fresh_price refetched
energy_price_sun cfg now now' fetch c = elim (fresh_price now c) [
  | some p ↦ (p, c)
  | none ↦ elim (fresh_price now' c) [
    | some p ↦ (p, c)
    | none ↦
        let p = refetched now' cfg.price_fallback fetch c.price in
        (p, record { price = some p; fetched_at = now' })
  ]
]

-- The encoded parameters or an exception; then the node's estimate, where a negative one reads 0.
unfoldable pub estimate_transfer_energy : Reply (Unit {0}) → Reply ℕ → Option ℕ
estimate_transfer_energy (raised e) estimate = none
estimate_transfer_energy (returned u) (raised e) = none
estimate_transfer_energy (returned u) (returned energy) = if leb energy 0 then none else some energy

-- `max(_MIN_FEE_LIMIT_SUN, min(USDT_FEE_LIMIT_SUN, sun))`, here and in `Wallet.send_usdt`.
unfoldable pub clamp_fee : Config → ℕ → ℕ
clamp_fee cfg sun = max min_fee_limit_sun (min cfg.fee_limit_sun sun)

-- `int(Decimal(energy) * Decimal(price) * FEE_LIMIT_SAFETY_MULT)`
unfoldable pub scaled_fee : Config → ℕ → ℕ → ℕ
scaled_fee cfg energy price = energy * price * cfg.mult_num / cfg.mult_den

-- `price` is what `energy_price_sun` answers.
unfoldable pub compute_fee_limit_sun : Config → Option ℕ → ℕ → ℕ
compute_fee_limit_sun cfg none price = cfg.fee_limit_sun
compute_fee_limit_sun cfg (some energy) price =
    if energy == 0 then cfg.fee_limit_sun else clamp_fee cfg (scaled_fee cfg energy price)

-- Where the configured ceiling is at least the floor of 5 TRX, every fee limit lies between the
-- two, with or without an estimate, and `send_usdt` does not change it any more.
pub compute_fee_limit_bounds :
    (cfg : Config) (energy : Option ℕ) (price : ℕ)
    → min_fee_limit_sun ≤ cfg.fee_limit_sun
    → (min_fee_limit_sun ≤ compute_fee_limit_sun cfg energy price)
      × (compute_fee_limit_sun cfg energy price ≤ cfg.fee_limit_sun)
      × (clamp_fee cfg (compute_fee_limit_sun cfg energy price)
          ≡ compute_fee_limit_sun cfg energy price)
unfolding compute_fee_limit_sun clamp_fee
compute_fee_limit_bounds cfg none price h = ground arith
compute_fee_limit_bounds cfg (some energy) price h = ground arith

-- Where the ceiling is below the floor, an estimate gives the floor, above the ceiling, and no
-- estimate gives the ceiling, below the floor.
ceiling_below_floor :
    (cfg : Config) (energy price : ℕ)
    → cfg.fee_limit_sun < min_fee_limit_sun
    → 0 < energy
    → (compute_fee_limit_sun cfg (some energy) price ≡ min_fee_limit_sun)
      × (compute_fee_limit_sun cfg none price < min_fee_limit_sun)
unfolding compute_fee_limit_sun clamp_fee
ceiling_below_floor cfg energy price h k = ground arith

find_price_pos : (fallback : ℕ) (ps : Parameters) → 0 < fallback → 0 < find_price fallback ps
unfolding find_price
find_price_pos fallback [] h = h
find_price_pos fallback ((key, v) ∷ rest) h = ground (arith, find_price_pos fallback rest h)

-- No cached price is zero.
abbrev pub IsPriced : PriceCache → Type 0
IsPriced c = c.price ≢ some 0

-- The price that is answered is positive and cached, whatever the node says, where the fallback is
-- positive and the cache held no zero.
energy_price_pos :
    (cfg : Config) (now now' : ℕ) (fetch : Reply Parameters) (c : PriceCache)
    → 0 < cfg.price_fallback
    → IsPriced c
    → let (p, c') = energy_price_sun cfg now now' fetch c in (0 < p) × (c'.price ≡ some p)
unfolding energy_price_sun
energy_price_pos cfg now now' (returned ps) c h k =
    ground (arith, find_price_pos cfg.price_fallback ps h)
energy_price_pos cfg now now' (raised e) c h k = ground arith

-- A price that was known is kept through any failed refresh.
energy_price_kept :
    (cfg : Config) (now now' p : ℕ) (e : Exc) (c : PriceCache)
    → c.price ≡ some p
    → (energy_price_sun cfg now now' (raised e) c).0 ≡ p
unfolding energy_price_sun
energy_price_kept cfg now now' p e c h = ground arith

-- Within the TTL the answer does not depend on the node, and nothing is fetched.
energy_price_cached :
    (cfg : Config) (now now' p : ℕ) (fetch : Reply Parameters) (c : PriceCache)
    → c.price ≡ some p
    → now < c.fetched_at + price_ttl
    → energy_price_sun cfg now now' fetch c ≡ (p, c)
unfolding energy_price_sun
energy_price_cached cfg now now' p fetch c h t = ground arith
