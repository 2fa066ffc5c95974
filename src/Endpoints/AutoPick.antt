-- ===== src/Endpoints/AutoPick.antt =====
-- What GET /wallets promises of the pool, and of the wallet that a payment without a name would use.
use skr_crypto.Endpoints.{
  Node, Listing, WalletSummary, answer, trx_of, usdt_of, summary_of, list_wallet, list_all,
  empty_listing, wallets_endpoint, failed_row, answered_row, list_failed, list_answered,
  BalanceResponse, wallet_balance,
}
use skr_crypto.Exceptions.{Reply, returned, raised}
use skr_crypto.Wallets.Pool.{
  Wallet, Pool, Best, Resolved, wallet, refused, all, consider, pick, nothing_yet,
  auto_pick_max_usdt, resolve, unnamed,
}
use skr_crypto.TronClient.Queries.{ResourceSummary}
use skr_crypto.Prelude.Dict.{Dict}
use mathlib.Core.List.{append-nil, append_assoc}
use skr_crypto.Prelude.{
  ℕ, ◌≤◌, String, true, false, Option, none, some, List, [], ◌∷◌, ◌++◌, map, length, ◌≡◌, refl, sym,
  ap, ◌∙◌, arith,
}

module _ (node : Node) where
  -- A wallet whose USDT balance the node tells has a TRX balance too.
  abbrev pub HasTrx : Type 0
  HasTrx =
      (a : String) (n : ℕ) → usdt_of node a ≡ returned n → (m : ℕ) × (trx_of node a ≡ returned m)

  -- The loops of the endpoint and of the pool's auto-pick stand at the same wallet.
  abbrev Alike : Listing → Best → Type 0
  Alike s b = elim b.best [
    | none ↦ (s.best_name ≡ none) × (s.bound ≡ 0) × (b.bound ≡ 0) × (b.any_ok ≡ false)
    | some w ↦ (s.best_name ≡ some w.name) × (s.bound ≡ b.bound) × (b.any_ok ≡ true)
  ]

  list_wallet-Alike :
      (w : Wallet) (res : ResourceSummary) (trx usdt : Reply ℕ) (s : Listing) (b : Best)
      → ((n : ℕ) → usdt ≡ returned n → (m : ℕ) × (trx ≡ returned m))
      → Alike s b
      → Alike (list_wallet w res trx usdt s) (consider w usdt b)
  unfolding list_wallet list_failed list_answered consider
  list_wallet-Alike w res (raised e) (returned n) s b k h = ground (arith, k n refl)
  list_wallet-Alike w res (raised e) (raised f) s b k h = h
  list_wallet-Alike w res (returned m) (raised f) s b k h = h
  list_wallet-Alike w res (returned m) (returned n) s b k h = ground arith

  list_all-Alike :
      (ws : List Wallet) (s : Listing) (b : Best)
      → HasTrx
      → Alike s b
      → Alike (list_all node ws s) (pick (usdt_of node) ws b)
  unfolding list_all pick
  list_all-Alike [] s b k h = h
  list_all-Alike (w ∷ ws) s b k h = list_all-Alike ws _ _ k (
      list_wallet-Alike w (summary_of node w.address) (trx_of node w.address)
        (usdt_of node w.address) s b (k w.address) h)

  -- The name that goes with an answer of the pool.
  abbrev pub name_of : Resolved → Option String
  name_of (wallet w) = some w.name
  name_of (refused e) = none

  auto_pick-Alike :
      (pool : Pool)
      → HasTrx
      → (wallets_endpoint node pool).best_name ≡ name_of (auto_pick_max_usdt (usdt_of node) pool)
  unfolding wallets_endpoint auto_pick_max_usdt
  auto_pick-Alike pool k =
      let h = list_all-Alike (all pool) empty_listing nothing_yet k (refl, refl, refl, refl) in
      ground arith

  resolve-auto_pick :
      (pool : Pool) (d : Dict Wallet)
      → 2 ≤ length d
      → unnamed (some (usdt_of node)) true pool d ≡ auto_pick_max_usdt (usdt_of node) pool
  unfolding unnamed
  resolve-auto_pick pool [] h = absurd (omega arith)
  resolve-auto_pick pool (e ∷ []) h = absurd (omega arith)
  resolve-auto_pick pool (e ∷ f ∷ d) h = refl

  -- With two wallets or more, and while the node tells the TRX balance of each wallet whose USDT
  -- balance it tells, the wallet that GET /wallets names as the auto-pick is the one that the pool
  -- resolves for a payment without a wallet's name, and it names none exactly where the pool refuses.
  pub wallets_endpoint-resolve :
      (pool : Pool)
      → HasTrx
      → 2 ≤ length pool.wallets
      → (wallets_endpoint node pool).best_name
        ≡ name_of (resolve none (some (usdt_of node)) true pool)
  unfolding resolve
  wallets_endpoint-resolve pool k h =
      ground (arith, auto_pick-Alike pool k, resolve-auto_pick pool pool.wallets h)

  -- A row of the list: both balances, or neither where one of the lookups raises.
  abbrev row_of : Wallet → Reply ℕ → Reply ℕ → WalletSummary
  row_of w (raised e) usdt = failed_row w
  row_of w (returned trx) (raised e) = failed_row w
  row_of w (returned trx) (returned usdt) = answered_row w (summary_of node w.address) trx usdt

  abbrev row : Wallet → WalletSummary
  row w = row_of w (trx_of node w.address) (usdt_of node w.address)

  list_wallet-rows :
      (w : Wallet) (trx usdt : Reply ℕ) (s : Listing)
      → (list_wallet w (summary_of node w.address) trx usdt s).wallets
        ≡ s.wallets ++ row_of w trx usdt ∷ []
  unfolding list_wallet list_failed list_answered
  list_wallet-rows w (raised e) usdt s = refl
  list_wallet-rows w (returned m) (raised f) s = refl
  list_wallet-rows w (returned m) (returned n) s = ground arith

  list_all-rows :
      (ws : List Wallet) (s : Listing) → (list_all node ws s).wallets ≡ s.wallets ++ map row ws
  unfolding list_all
  list_all-rows [] s = sym (append-nil s.wallets)
  list_all-rows (w ∷ ws) s =
      let trx = trx_of node w.address in
      let usdt = usdt_of node w.address in
      list_all-rows ws (list_wallet w (summary_of node w.address) trx usdt s)
      ∙ ap (λ rows. rows ++ map row ws) (list_wallet-rows w trx usdt s)
      ∙ append_assoc s.wallets (row w ∷ []) (map row ws)

  -- GET /wallets answers one row for each wallet of the pool, in the order of their names, whatever
  -- lookups raise.
  wallets_endpoint-rows : (pool : Pool) → (wallets_endpoint node pool).wallets ≡ map row (all pool)
  unfolding wallets_endpoint
  wallets_endpoint-rows pool = list_all-rows (all pool) empty_listing

  wallet_balance-row_of :
      (w : Wallet) (r : BalanceResponse)
      → wallet_balance node w ≡ answer r
      → (r.wallet ≡ w.name) × ((row w).trx ≡ some r.trx) × ((row w).usdt ≡ some r.usdt)
  unfolding wallet_balance failed_row answered_row
  wallet_balance-row_of w r h = ground arith
