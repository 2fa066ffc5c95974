-- ===== src/Wallets/Tests.antt =====
-- Concrete pools and transfers.
use skr_crypto.Exceptions.{Exc, Reply, returned, raised}
use skr_crypto.TronClient.Fees.{Config}
use skr_crypto.Prelude.Dict.{lookup}
use skr_crypto.Wallets.Pool.{Wallet, Pool, wallet, new_pool, init, auto_pick_max_usdt, resolve}
use skr_crypto.Wallets.Picking.{Among, auto_pick-max}
use skr_crypto.Prelude.{ℕ, ◌≤◌, String, true, none, some, [], ◌∷◌, ◌≡◌, refl, str_eq, if◌then◌else◌}

abbrev down : Exc
down = record { class_name = "ConnectionError"; text = "unreachable" }

abbrev small : Wallet
small = record { name = "b"; address = "Tsmall"; has_key = true }

abbrev large : Wallet
large = record { name = "a"; address = "Tlarge"; has_key = true }

abbrev offline : Wallet
offline = record { name = "c"; address = "Toffline"; has_key = true }

abbrev pool : Pool
pool = record { wallets = ("b", small) ∷ ("a", large) ∷ ("c", offline) ∷ []; initialized = true }

abbrev balance : String → Reply ℕ
balance address =
    if str_eq address "Tsmall"
    then returned 10
    else if str_eq address "Tlarge"
    then returned 70
    else raised down

-- Loading the wallets gives this pool.
loaded : init (small ∷ large ∷ offline ∷ []) new_pool ≡ pool
unfolding init skr_crypto.Prelude.Dict.insert
loaded = refl

picks_large : auto_pick_max_usdt balance pool ≡ wallet large
unfolding auto_pick_max_usdt skr_crypto.Wallets.Pool.pick skr_crypto.Wallets.Pool.all
    skr_crypto.Wallets.Pool.sort_by_name skr_crypto.Wallets.Pool.name_leb
    skr_crypto.Wallets.Pool.insert_sorted skr_crypto.Wallets.Pool.consider
picks_large = refl

auto_pick-max_example :
    Among large pool.wallets
    × ((n : ℕ) × (balance "Tlarge" ≡ returned n)
        × ((name : String) (v : Wallet) (m : ℕ)
            → lookup name pool.wallets ≡ some v
            → balance v.address ≡ returned m
            → m ≤ n))
auto_pick-max_example = auto_pick-max balance pool large picks_large

picks_named : resolve (some "b") none true pool ≡ wallet small
unfolding resolve skr_crypto.Wallets.Pool.get lookup
picks_named = refl

abbrev config : Config
config = record { fee_limit_sun = 30000000; price_fallback = 420; mult_num = 13; mult_den = 10 }
