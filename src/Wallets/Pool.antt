-- ===== src/Wallets/Pool.antt =====
-- `WalletPool` of skr_crypto/server/wallet_pool.py. A key is present or destroyed; the pool never
-- looks at it.
use Prim.Native.Nat.{Ordering}
use Prim.Native.String.{compare}
use skr_crypto.Exceptions.{Reply, returned, raised}
use skr_crypto.Prelude.Dict.{Dict, lookup, insert}
use skr_crypto.Prelude.{
  ℕ, ◌+◌, String, Bool, true, false, not, Option, none, some, List, [], ◌∷◌, map, ltb, ◌==◌, str_eq,
  length, if◌then◌else◌,
}

pub record Wallet : Type 0 where
  pub name : String
  pub address : String
  pub has_key : Bool

pub record Pool : Type 0 where
  pub wallets : Dict Wallet
  pub initialized : Bool

abbrev pub new_pool : Pool
new_pool = record { wallets = []; initialized = false }

add_all : List Wallet → Dict Wallet → Dict Wallet
add_all [] d = d
add_all (w ∷ ws) d = add_all ws (insert w.name w d)

unfoldable pub init : List Wallet → Pool → Pool
unfolding add_all
init ws pool = record { wallets = add_all ws []; initialized = true }

unfoldable pub destroy : Pool → Pool
destroy pool = record { wallets = []; initialized = false }

-- `sorted`, on the names: by code point.
unfoldable pub name_leb : String → String → Bool
name_leb a b = elim (compare a b) [ Ordering.gt ↦ false | _ ↦ true ]

unfoldable pub insert_sorted : String × Wallet → Dict Wallet → Dict Wallet
insert_sorted e [] = e ∷ []
insert_sorted e (f ∷ d) =
    let rest = insert_sorted e d in if name_leb e.0 f.0 then e ∷ f ∷ d else f ∷ rest

unfoldable pub sort_by_name : Dict Wallet → Dict Wallet
unfolding insert_sorted
sort_by_name [] = []
sort_by_name (e ∷ d) = insert_sorted e (sort_by_name d)

unfoldable pub names : Pool → List String
names pool = map (λ (e : String × Wallet). e.0) (sort_by_name pool.wallets)

-- Each name has one entry, so the lookups of `all` read the sorted entries.
unfoldable pub all : Pool → List Wallet
all pool = map (λ (e : String × Wallet). e.1) (sort_by_name pool.wallets)

unfoldable pub count : Pool → ℕ
count pool = length pool.wallets

pub data PoolError : Type 0 where
  not_found : String → List String → PoolError
  pool_empty auto_pick_failed bad_policy no_client : PoolError

pub data Resolved : Type 0 where
  wallet : Wallet → Resolved
  refused : PoolError → Resolved

unfoldable pub get : String → Pool → Resolved
get name pool = elim (lookup name pool.wallets) [
  | none ↦ refused (not_found name (names pool))
  | some w ↦ wallet w
]

-- The loop's variables; `bound` is `best_balance + 1`, which starts at -1.
pub record Best : Type 0 where
  pub best : Option Wallet
  pub bound : ℕ
  pub any_ok : Bool

unfoldable pub consider : Wallet → Reply ℕ → Best → Best
consider w (raised e) b = b
consider w (returned bal) b =
    if ltb b.bound (bal + 1)
    then record { best = some w; bound = bal + 1; any_ok = true }
    else record b { any_ok = true }

unfoldable pub pick : (String → Reply ℕ) → List Wallet → Best → Best
unfolding consider
pick balance [] b = b
pick balance (w ∷ ws) b = pick balance ws (consider w (balance w.address) b)

abbrev pub nothing_yet : Best
nothing_yet = record { best = none; bound = 0; any_ok = false }

picked : Best → Resolved
picked b = elim b.best [
  | none ↦ refused auto_pick_failed
  | some w ↦ if b.any_ok then wallet w else refused auto_pick_failed
]

-- `balance` is the client's `get_usdt_balance_for`.
unfoldable pub auto_pick_max_usdt : (String → Reply ℕ) → Pool → Resolved
unfolding picked
auto_pick_max_usdt balance pool = picked (pick balance (all pool) nothing_yet)

-- An empty name is as good as none.
abbrev pub given : Option String → Option String
given none = none
given (some name) = if str_eq name "" then none else some name

unfoldable pub unnamed : Option (String → Reply ℕ) → Bool → Pool → Dict Wallet → Resolved
unfolding auto_pick_max_usdt
unnamed client max_usdt pool [] = refused pool_empty
unnamed client max_usdt pool ((n, w) ∷ []) = wallet w
unnamed client max_usdt pool (e ∷ f ∷ rest) =
    if not max_usdt
    then refused bad_policy
    else elim client [ none ↦ refused no_client | some balance ↦ auto_pick_max_usdt balance pool ]

-- `max_usdt` is whether the policy is "max-usdt".
unfoldable pub resolve : Option String → Option (String → Reply ℕ) → Bool → Pool → Resolved
unfolding unnamed
resolve name client max_usdt pool =
    if length pool.wallets == 0 then refused pool_empty else elim (given name) [
      | some n ↦ get n pool
      | none ↦ unnamed client max_usdt pool pool.wallets
    ]
