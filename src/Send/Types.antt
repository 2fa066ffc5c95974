-- ===== src/Send/Types.antt =====
-- The state that `_send_impl` works on, what it is told by the rest of the world, and its failures.
use skr_crypto.Exceptions.{Exc, Reply}
use skr_crypto.Audit
use skr_crypto.Audit.{Disk}
use skr_crypto.TronClient.Fees.{Config}
use skr_crypto.TronClient.Queries.{Destination}
use skr_crypto.Wallets.Pool.{Pool}
use skr_crypto.Wallets.Signing.{Transfer, Response}
use skr_crypto.Risk.Types
use skr_crypto.Risk.Assess.{BlockLevel}
use skr_crypto.Prelude.{ℕ, String, Bool, true, false, Option, List, ◌≡◌, ◌⊎◌, inl, inr, refl}

-- The checks of `_validate_tron_address`.
pub data Reason : Type 0 where
  must_start_with_t bad_encoding bad_length bad_prefix : Reason

-- What `_send_impl` raises: the subclasses of PayoutError first, then what is none of them.
pub data Failure : Type 0 where
  wallet_not_found pool_empty auto_pick_failed : Failure
  invalid_address : Reason → Failure
  risk_too_high : Failure
  insufficient_usdt insufficient_trx energy_too_expensive transaction_failed : Failure
  pool_error conflict unresolved_key not_open still_waiting : Failure
  audit_error value_error database_error : Failure
  rpc_error : Exc → Failure

-- `except PayoutError`
abbrev pub is_payout_error : Failure → Bool
is_payout_error insufficient_usdt = true
is_payout_error insufficient_trx = true
is_payout_error energy_too_expensive = true
is_payout_error transaction_failed = true
is_payout_error wallet_not_found = true
is_payout_error pool_empty = true
is_payout_error auto_pick_failed = true
is_payout_error (invalid_address r) = true
is_payout_error risk_too_high = true
is_payout_error _ = false

pub data Result (A : Type 0) : Type 0 where
  ok : A → Result A
  err : Failure → Result A

-- The part of SendRequest that the handler reads; the amount is in micro-USDT.
pub record Request : Type 0 where
  pub to_address : String
  pub amount : ℕ
  pub idempotency_key : String
  pub wallet : Option String

pub data Status : Type 0 where
  broadcast duplicate : Status

pub record SendResponse : Type 0 where
  pub txid : String
  pub from_address : String
  pub wallet : String
  pub to_address : String
  pub amount : ℕ
  pub idempotency_key : String
  pub status : Status

-- Whether the database raises in a call of the store: not at all, in its statement, which then has no
-- effect, or when the connection commits it, which leaves the statement's effect on the connection.
pub data Fault : Type 0 where
  clear before after : Fault

abbrev pub is_after : Fault → Bool
is_after after = true
is_after _ = false

pub Fault-cases : (f : Fault) → (f ≡ clear) ⊎ ((f ≡ before) ⊎ (f ≡ after))
Fault-cases clear = inl refl
Fault-cases before = inr (inl refl)
Fault-cases after = inr (inr refl)

-- The configuration, and what the network, the node, the disk and the database do during one
-- request. MIN_TRX_RESERVE and MAX_ENERGY_BURN_TRX are in SUN. `disk n` is for the audit record with
-- number n.
pub record Env : Type 0 where
  pub fees : Config
  pub min_trx_reserve : ℕ
  pub max_energy_burn : ℕ
  pub block_level : BlockLevel
  pub use_external : Bool
  pub now : ℕ
  pub pool : Pool
  pub pool_balance : String → Reply ℕ
  pub recipient : Types.World
  pub disk : ℕ → Disk
  pub usdt_balance : Reply ℕ
  pub trx_balance : Reply ℕ
  pub destination : Reply Destination
  pub estimated_energy : Option ℕ
  -- What `energy_price_sun` answers, at its two calls in one request.
  pub energy_price : ℕ
  pub contract : Reply (Unit {0})
  pub build : Reply (Unit {0})
  pub network : Reply Response
  -- How the calls of the idempotency store fail in its database; the one in memory has no faults.
  pub reserve_fault : Fault
  pub commit_fault : Fault
  pub release_fault : Fault

-- The store, the audit log, and every broadcast that was called, newest first.
pub record World (S : Type 0) : Type 0 where
  pub store : S
  pub audit : Audit.State
  pub sent : List Transfer

abbrev pub Exec : Type 0 → Type 0 → Type 0
Exec S A = World S → Result A × World S

abbrev pub continue : {S A B : Type 0} → Result A → (A → Exec S B) → Exec S B
continue (ok a) f w = f a w
continue (err e) f w = (err e, w)

infixl 5 ◌>>=◌ ◌>>◌
abbrev pub ◌>>=◌ : {S A B : Type 0} → Exec S A → (A → Exec S B) → Exec S B
◌>>=◌ m f w = let (r, w') = m w in continue r f w'

abbrev pub ◌>>◌ : {S A B : Type 0} → Exec S A → Exec S B → Exec S B
m >> k = m >>= λ _. k

abbrev pub pure : {S A : Type 0} → A → Exec S A
pure a w = (ok a, w)

abbrev pub raise : {S A : Type 0} → Failure → Exec S A
raise e w = (err e, w)
