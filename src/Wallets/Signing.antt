-- ===== src/Wallets/Signing.antt =====
-- `Wallet.send_usdt` of skr_crypto/server/wallet.py. Building, signing and the node are arguments; a
-- broadcast is recorded when it is called, whatever the node answers.
use skr_crypto.Exceptions.{Exc, Reply, returned, raised}
use skr_crypto.TronClient.Fees.{Config, clamp_fee}
use skr_crypto.Wallets.Pool.{Wallet}
use skr_crypto.Prelude.{
  ℕ, ◌≤◌, String, Bool, true, not, Option, none, some, List, [], ◌∷◌, ◌≡◌, ◌≢◌, arith, str_eq,
  eq_iff, length, if◌then◌else◌,
}

-- A signed transfer; the amount is in micro-USDT, `int(amount * 10 ** USDT_DECIMALS)`.
pub record Transfer : Type 0 where
  pub owner : String
  pub to_address : String
  pub amount_raw : ℕ
  pub fee_limit : ℕ

-- What `broadcast` returns: a dict with `result is True` and `txid or ""`, or something else.
pub data Response : Type 0 where
  no_dict : Response
  answer : Bool → String → Response

pub data Sent : Type 0 where
  txid : String → Sent
  key_destroyed unexpected_type rejected empty_txid : Sent
  failed : Exc → Sent

-- `fee_limit_sun` may be left out.
requested_fee : Config → Option ℕ → ℕ
requested_fee cfg none = cfg.fee_limit_sun
requested_fee cfg (some sun) = sun

unfoldable pub make_transfer : Config → Wallet → String → ℕ → Option ℕ → Transfer
unfolding requested_fee
make_transfer cfg w to_address amount fee = record {
  owner = w.address;
  to_address = to_address;
  amount_raw = amount;
  fee_limit = clamp_fee cfg (requested_fee cfg fee);
}

unfoldable pub read_response : Reply Response → Sent
read_response (raised e) = failed e
read_response (returned no_dict) = unexpected_type
read_response (returned (answer accepted id)) =
    if not accepted then rejected else if str_eq id "" then empty_txid else txid id

-- The broadcasts that were called, and the result.
unfoldable pub send_usdt :
    Config
    → Wallet
    → String
    → ℕ
    → Option ℕ
    → Reply (Unit {0})
    → Reply Response
    → List Transfer × Sent
send_usdt cfg w to_address amount fee (raised e) network =
    if not w.has_key then ([], key_destroyed) else ([], failed e)
send_usdt cfg w to_address amount fee (returned u) network =
    if not w.has_key
    then ([], key_destroyed)
    else (make_transfer cfg w to_address amount fee ∷ [], read_response network)

-- One call broadcasts at most once, and never retries. Where it returns a txid it has broadcast once, to
-- the address and for the amount that it was given, the node has accepted it, and the txid is not
-- empty.
send_usdt-once :
    (cfg : Config) (w : Wallet) (to_address : String) (amount : ℕ) (fee : Option ℕ)
    (build : Reply (Unit {0})) (network : Reply Response)
    → let (sent, r) = send_usdt cfg w to_address amount fee build network in
      (length sent ≤ 1)
      × ((id : String)
          → r ≡ txid id
          → (sent ≡ make_transfer cfg w to_address amount fee ∷ [])
            × (network ≡ returned (answer true id))
            × (id ≢ ""))
unfolding send_usdt read_response
send_usdt-once cfg w to_address amount fee (raised e) network = (ground arith, λ id h. ground arith)
send_usdt-once cfg w to_address amount fee (returned u) network =
    (ground arith, λ id h. ground (arith, eq_iff id ""))
