-- ===== src/RateLimit/Buckets.antt =====
-- The table `rate_limit_buckets`, and the dict `_memory`: one bucket for each kind and value of key.
use skr_crypto.Prelude.{
  ℕ, ◌+◌, String, Bool, true, false, ◌&&◌, Option, none, some, List, [], ◌∷◌, ◌≡◌, refl, arith, ltb,
  str_eq, eq_iff, if◌then◌else◌,
}

-- `key_type`
pub data KeyType : Type 0 where
  ip token : KeyType

pub record Key : Type 0 where
  pub key_type : KeyType
  pub key_value : String

pub record Bucket : Type 0 where
  pub tokens : ℕ
  pub updated_at : ℕ

abbrev pub Table : Type 0
Table = List (Key × Bucket)

abbrev pub same_type : KeyType → KeyType → Bool
same_type ip ip = true
same_type token token = true
same_type _ _ = false

abbrev pub same_key : Key → Key → Bool
same_key a b = same_type a.key_type b.key_type && str_eq a.key_value b.key_value

unfoldable pub find : Key → Table → Option Bucket
find k [] = none
find k ((j, b) ∷ t) = if same_key j k then some b else find k t

unfoldable pub put : Key → Bucket → Table → Table
put k b [] = (k, b) ∷ []
put k b ((j, c) ∷ t) = let rest = put k b t in if same_key j k then (k, b) ∷ t else (j, c) ∷ rest

-- The rows with `updated_at < cutoff` are deleted.
unfoldable pub kept : ℕ → Table → Table
kept cutoff [] = []
kept cutoff ((j, b) ∷ t) =
    let rest = kept cutoff t in if ltb b.updated_at cutoff then rest else (j, b) ∷ rest

unfoldable pub removed : ℕ → Table → ℕ
removed cutoff [] = 0
removed cutoff ((j, b) ∷ t) = (if ltb b.updated_at cutoff then 1 else 0) + removed cutoff t

pub find-put :
    (k j : Key) (b : Bucket) (t : Table)
    → find j (put k b t) ≡ (if same_key k j then some b else find j t)
unfolding find put
find-put k j b [] = refl
find-put k j b ((i, c) ∷ t) = ground (
  arith,
  eq_iff k.key_value j.key_value,
  eq_iff i.key_value k.key_value,
  eq_iff i.key_value j.key_value,
  find-put k j b t,
)
