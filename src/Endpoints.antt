-- ===== src/Endpoints.antt =====
-- GET /balance and GET /wallets of skr_crypto/server/routes.py, after the token check. Their replies
-- hold amounts as numbers, which the code prints.
mod AutoPick
mod Tests
use skr_crypto.Exceptions.{Exc, Reply, returned, raised}
use skr_crypto.TronClient.Queries.{
  Resource, ResourceSummary, get_trx_balance_for, get_usdt_balance_for, get_resource_summary_for,
}
use skr_crypto.Wallets.Pool.{Wallet, Pool, PoolError, resolve, all}
use skr_crypto.Prelude.{
  ℕ, ◌+◌, String, true, Option, none, some, List, [], ◌∷◌, ◌++◌, ltb, if◌then◌else◌,
}

-- What the node says of an address while one request is served.
pub record Node : Type 0 where
  pub trx : String → Reply ℕ
  pub contract : String → Reply (Unit {0})
  pub usdt : String → Reply ℕ
  pub resource : String → Reply Resource

abbrev pub trx_of : Node → String → Reply ℕ
trx_of node a = get_trx_balance_for (node.trx a)

abbrev pub usdt_of : Node → String → Reply ℕ
usdt_of node a = get_usdt_balance_for (node.contract a) (node.usdt a)

abbrev pub summary_of : Node → String → ResourceSummary
summary_of node a = get_resource_summary_for (node.resource a)

pub record BalanceResponse : Type 0 where
  pub wallet : String
  pub address : String
  pub trx : ℕ
  pub usdt : ℕ
  pub energy_available : ℕ
  pub bandwidth_free_available : ℕ
  pub bandwidth_paid_available : ℕ
  pub tron_power_staked : ℕ

pub data Outcome : Type 0 where
  answer : BalanceResponse → Outcome
  no_wallet : PoolError → Outcome
  rpc_failed : Exc → Outcome

balance_response : Wallet → ResourceSummary → ℕ → ℕ → BalanceResponse
balance_response w res trx usdt = record {
  wallet = w.name;
  address = w.address;
  trx = trx;
  usdt = usdt;
  energy_available = res.energy_available;
  bandwidth_free_available = res.bandwidth_free_available;
  bandwidth_paid_available = res.bandwidth_paid_available;
  tron_power_staked = res.tron_power;
}

-- The TRX balance is asked for first.
unfoldable pub wallet_balance : Node → Wallet → Outcome
unfolding balance_response
wallet_balance node w = elim (trx_of node w.address) [
  | raised e ↦ rpc_failed e
  | returned trx ↦ elim (usdt_of node w.address) [
    | raised e ↦ rpc_failed e
    | returned usdt ↦ answer (balance_response w (summary_of node w.address) trx usdt)
  ]
]

-- `balance`; `pool_balance` is what the pool's own lookups say, before those for the reply.
unfoldable pub balance : Option String → (String → Reply ℕ) → Pool → Node → Outcome
unfolding wallet_balance
balance name pool_balance pool node = elim (resolve name (some pool_balance) true pool) [
  | skr_crypto.Wallets.Pool.Resolved.wallet w ↦ wallet_balance node w
  | skr_crypto.Wallets.Pool.Resolved.refused e ↦ no_wallet e
]

-- A row of the list; a balance is `none` for the text "error".
pub record WalletSummary : Type 0 where
  pub wallet : String
  pub address : String
  pub trx : Option ℕ
  pub usdt : Option ℕ
  pub energy_available : ℕ
  pub bandwidth_free_available : ℕ
  pub bandwidth_paid_available : ℕ

-- The loop's variables; `bound` is `best_usdt + 1`, which starts at -1.
pub record Listing : Type 0 where
  pub wallets : List WalletSummary
  pub best_name : Option String
  pub bound : ℕ

unfoldable pub failed_row : Wallet → WalletSummary
failed_row w = record {
  wallet = w.name;
  address = w.address;
  trx = none;
  usdt = none;
  energy_available = 0;
  bandwidth_free_available = 0;
  bandwidth_paid_available = 0;
}

unfoldable pub answered_row : Wallet → ResourceSummary → ℕ → ℕ → WalletSummary
answered_row w res trx usdt = record {
  wallet = w.name;
  address = w.address;
  trx = some trx;
  usdt = some usdt;
  energy_available = res.energy_available;
  bandwidth_free_available = res.bandwidth_free_available;
  bandwidth_paid_available = res.bandwidth_paid_available;
}

unfoldable pub list_failed : Wallet → Listing → Listing
unfolding failed_row
list_failed w s = record s { wallets = s.wallets ++ failed_row w ∷ [] }

unfoldable pub list_answered : Wallet → ResourceSummary → ℕ → ℕ → Listing → Listing
unfolding answered_row
list_answered w res trx usdt s =
    let rows = s.wallets ++ answered_row w res trx usdt ∷ [] in
    if ltb s.bound (usdt + 1)
    then record { wallets = rows; best_name = some w.name; bound = usdt + 1 }
    else record s { wallets = rows }

unfoldable pub list_wallet : Wallet → ResourceSummary → Reply ℕ → Reply ℕ → Listing → Listing
unfolding list_failed list_answered
list_wallet w res (raised e) usdt s = list_failed w s
list_wallet w res (returned trx) (raised e) s = list_failed w s
list_wallet w res (returned trx) (returned usdt) s = list_answered w res trx usdt s

unfoldable pub list_all : Node → List Wallet → Listing → Listing
unfolding list_wallet
list_all node [] s = s
list_all node (w ∷ ws) s =
    list_all node ws
      (list_wallet w (summary_of node w.address) (trx_of node w.address) (usdt_of node w.address) s)

abbrev pub empty_listing : Listing
empty_listing = record { wallets = []; best_name = none; bound = 0 }

-- `wallets_endpoint`; the reply's `auto_pick` is `best_name`.
unfoldable pub wallets_endpoint : Node → Pool → Listing
unfolding list_all
wallets_endpoint node pool = list_all node (all pool) empty_listing
