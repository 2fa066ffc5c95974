-- ===== src/Endpoints/Tests.antt =====
-- A pool of three wallets whose third does not answer.
use skr_crypto.Endpoints.{Node, wallets_endpoint, usdt_of}
use skr_crypto.Endpoints.AutoPick.{HasTrx, name_of, wallets_endpoint-resolve}
use skr_crypto.Exceptions.{Exc, Reply, returned, raised}
use skr_crypto.TronClient.Queries.{get_trx_balance_for, get_usdt_balance_for}
use skr_crypto.Wallets.Pool.{Wallet, Pool, resolve}
use skr_crypto.Prelude.{
  ℕ, String, true, none, some, [], ◌∷◌, ◌≡◌, refl, arith, str_eq, if◌then◌else◌,
}

abbrev down : Exc
down = record { class_name = "ConnectionError"; text = "unreachable" }

abbrev wallet : String → String → Wallet
wallet name address = record { name = name; address = address; has_key = true }

abbrev pool : Pool
pool = record {
  wallets =
      ("b", wallet "b" "Tsmall") ∷ ("a", wallet "a" "Tlarge") ∷ ("c", wallet "c" "Toffline") ∷ [];
  initialized = true;
}

abbrev usdt : String → Reply ℕ
usdt a =
    if str_eq a "Tsmall"
    then returned 10
    else if str_eq a "Tlarge"
    then returned 70
    else raised down

abbrev node : Node
node = record {
  trx = λ a. returned 5;
  contract = λ a. returned tt;
  usdt = usdt;
  resource = λ a. raised down;
}

picks_a : (wallets_endpoint node pool).best_name ≡ some "a"
unfolding wallets_endpoint skr_crypto.Endpoints.list_all skr_crypto.Endpoints.list_wallet
    skr_crypto.Endpoints.list_failed skr_crypto.Endpoints.list_answered skr_crypto.Wallets.Pool.all
    skr_crypto.Wallets.Pool.sort_by_name skr_crypto.Wallets.Pool.name_leb
    skr_crypto.Wallets.Pool.insert_sorted get_trx_balance_for get_usdt_balance_for
picks_a = refl

node-HasTrx : HasTrx node
unfolding get_trx_balance_for
node-HasTrx a n h = (5, refl)

wallets_endpoint-resolve_example :
    (wallets_endpoint node pool).best_name
    ≡ name_of node (resolve none (some (usdt_of node)) true pool)
wallets_endpoint-resolve_example = wallets_endpoint-resolve node pool node-HasTrx (omega arith)
