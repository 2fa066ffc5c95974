-- ===== src/Send/Handler.antt =====
-- `_send_impl`, stage by stage, and `_validate_tron_address`, of skr_crypto/server/routes.py.
use skr_crypto.Exceptions.{Reply, returned, raised}
use skr_crypto.Audit
use skr_crypto.Audit.{
  Event, Fields, written, write_error, send_rejected, send_duplicate, send_failed, send_success,
}
use skr_crypto.TronClient.Fees.{compute_fee_limit_sun}
use skr_crypto.Wallets.Pool.{Wallet, PoolError, Resolved, resolve}
use skr_crypto.Wallets.Signing.{Transfer, Sent, send_usdt}
use skr_crypto.Risk.Assess.{BlockLevel, at_none, assess_risk, should_block}
use skr_crypto.Idempotency.{Store, Ack}
use skr_crypto.Idempotency.Wait.{Reserved, timed_out, reserve_wait}
use skr_crypto.Send.Types.{
  Reason, must_start_with_t, bad_encoding, bad_length, bad_prefix, Failure, wallet_not_found,
  pool_empty, auto_pick_failed, invalid_address, risk_too_high, insufficient_usdt, insufficient_trx,
  energy_too_expensive, transaction_failed, pool_error, conflict, unresolved_key, not_open,
  still_waiting, audit_error, value_error, database_error, rpc_error, is_payout_error, Result, ok,
  err, Request, broadcast, duplicate, SendResponse, clear, before, after, is_after, Env, World,
  Exec, ◌>>=◌, ◌>>◌, pure, raise,
}
use skr_crypto.Prelude.Text.{starts_with}
use skr_crypto.Prelude.{
  ℕ, ◌*◌, String, Bool, true, false, ◌&&◌, not, Option, none, some, List, [], ◌∷◌, ◌++◌, length,
  ltb, ◌==◌, if◌then◌else◌,
}

validate_bytes : List ℕ → Option Reason
validate_bytes [] = some bad_length
validate_bytes (b ∷ body) =
    if not (length (b ∷ body) == 21)
    then some bad_length
    else if not (b == 0x41)
    then some bad_prefix
    else none

-- `none` where the address is accepted; `decoded` as in `Risk.Checks.check_validity`.
unfoldable pub validate_tron_address : String → Option (List ℕ) → Option Reason
unfolding validate_bytes
validate_tron_address address decoded =
    if not (starts_with address "T")
    then some must_start_with_t
    else elim decoded [ none ↦ some bad_encoding | some bytes ↦ validate_bytes bytes ]

-- `_resolve_wallet`
pool_failure : PoolError → Failure
pool_failure (PoolError.not_found name available) = wallet_not_found
pool_failure PoolError.pool_empty = pool_empty
pool_failure PoolError.auto_pick_failed = auto_pick_failed
pool_failure PoolError.bad_policy = pool_error
pool_failure PoolError.no_client = pool_error

abbrev pub is_at_none : BlockLevel → Bool
is_at_none at_none = true
is_at_none _ = false

module _ (I : Store) (env : Env) (req : Request) where
  unfoldable pub resolve_wallet : Exec I.State Wallet
  unfolding pool_failure
  resolve_wallet w = elim (resolve req.wallet (some env.pool_balance) true env.pool) [
    | Resolved.wallet x ↦ (ok x, w)
    | Resolved.refused e ↦ (err (pool_failure e), w)
  ]

  unfoldable pub validate : Exec I.State (Unit {0})
  validate w = elim (validate_tron_address req.to_address env.recipient.decoded) [
    | none ↦ (ok tt, w)
    | some r ↦ (err (invalid_address r), w)
  ]

  fields : Wallet → Event → String → String → Fields
  fields x event txid result = record {
    event = event;
    wallet = x.name;
    to_address = req.to_address;
    txid = txid;
    idempotency_key = req.idempotency_key;
    result = result;
  }

  -- `audit.record`
  unfoldable pub record_event : Wallet → Event → String → String → Exec I.State (Unit {0})
  unfolding fields
  record_event x event txid result w =
      let (r, a) = Audit.write (env.disk w.audit.seq) (fields x event txid result) w.audit in
      elim r [
        | written ↦ (ok tt, record w { audit = a })
        | write_error ↦ (err audit_error, record w { audit = a })
      ]

  -- An audit record of the refusal, and the exception.
  unfoldable pub reject : {A : Type 0} → Wallet → String → Failure → Exec I.State A
  reject x result e = record_event x send_rejected "" result >> raise e

  unfoldable pub risk_preflight : Wallet → Exec I.State (Unit {0})
  unfolding reject
  risk_preflight x =
      if is_at_none env.block_level
      then pure tt
      else if should_block (assess_risk req.to_address env.use_external env.recipient).level
          env.block_level
      then reject x "risk_too_high" risk_too_high
      else pure tt

  reserved : Reserved → Exec I.State (Option String)
  reserved Reserved.mine = if is_after env.reserve_fault then raise database_error else pure none
  reserved (Reserved.existing txid) = pure (some txid)
  reserved Reserved.conflict = raise conflict
  reserved Reserved.unresolved = raise unresolved_key
  reserved Reserved.not_open = raise not_open
  reserved Reserved.blocked = raise still_waiting

  -- Nobody else calls the store under `_send_lock`, so a wait for a key in flight times out.
  unfoldable pub reserve : Exec I.State (Option String)
  unfolding reserved
  reserve w =
      let (r, s) =
        reserve_wait I env.now req.idempotency_key w.store (timed_out env.now w.store ∷ []) in
      elim env.reserve_fault [
        | before ↦ (err database_error, w)
        | _ ↦ reserved r (record w { store = s })
      ]

  reply : {A : Type 0} → Reply A → Exec I.State A
  reply (returned a) = pure a
  reply (raised e) = raise (rpc_error e)

  -- `if estimated_energy:`, with the burn in SUN.
  too_expensive : Option ℕ → Bool
  too_expensive none = false
  too_expensive (some energy) =
      not (energy == 0)
      && (ltb 0 env.max_energy_burn && ltb env.max_energy_burn (energy * env.energy_price))

  unfoldable pub preflight : Wallet → Exec I.State ℕ
  unfolding reply too_expensive reject
  preflight x = reply env.usdt_balance >>= λ balance.
      if ltb balance req.amount
      then reject x "insufficient_usdt" insufficient_usdt
      else reply env.trx_balance >>= λ trx.
          if ltb trx env.min_trx_reserve
          then reject x "insufficient_trx" insufficient_trx
          else reply env.destination
            >> (if too_expensive env.estimated_energy
                then reject x "energy_too_expensive" energy_too_expensive
                else pure (compute_fee_limit_sun env.fees env.estimated_energy env.energy_price))

  -- `except PayoutError: raise`, `except Exception`: SEND_FAILED and TransactionFailed.
  or_failed : {A : Type 0} → Wallet → String → Result A → Exec I.State A
  or_failed x result (ok a) = pure a
  or_failed x result (err e) =
      if is_payout_error e
      then raise e
      else (do record_event x send_failed "" result; raise transaction_failed)

  unfoldable pub checked : Wallet → Exec I.State ℕ
  unfolding or_failed
  checked x w = let (r, w') = preflight x w in or_failed x "rpc_failed" r w'

  -- The contract's handle is an argument of the call, so its failure is the broadcast's.
  transmit : Wallet → ℕ → Reply (Unit {0}) → List Transfer × Sent
  transmit x fee (raised e) = ([], Sent.failed e)
  transmit x fee (returned u) =
      send_usdt env.fees x req.to_address req.amount (some fee) env.build env.network

  unfoldable pub transfer : Wallet → ℕ → Exec I.State String
  unfolding transmit
  transfer x fee w =
      let (ts, r) = transmit x fee env.contract in
      let w' : World I.State = record w { sent = ts ++ w.sent } in
      elim r [
        | Sent.txid t ↦ (ok t, w')
        | _ ↦ (do record_event x send_failed "" "tx_failed"; raise transaction_failed) w'
      ]

  acked : Ack → Exec I.State (Unit {0})
  acked Ack.done = pure tt
  acked Ack.invalid_txid = raise value_error
  acked Ack.not_open = raise not_open

  -- What a call raises that meets a fault: its own checks come first.
  failed : Ack → Failure
  failed Ack.done = database_error
  failed Ack.invalid_txid = value_error
  failed Ack.not_open = not_open

  unfoldable pub commit : String → Exec I.State (Unit {0})
  unfolding acked failed
  commit txid w =
      let (r, s) = I.commit env.now req.idempotency_key txid w.store in
      elim env.commit_fault [
        | clear ↦ acked r (record w { store = s })
        | before ↦ (err (failed r), w)
        | after ↦ (err (failed r), record w { store = s })
      ]

  unfoldable pub attempt : Wallet → Exec I.State String
  attempt x = do fee ← checked x; txid ← transfer x fee; commit txid; pure txid

  -- `except BaseException: idempotency.release(key); raise`; where the release raises, that is raised.
  unfoldable pub or_release : Result String → Exec I.State String
  unfolding acked failed
  or_release (ok txid) w = (ok txid, w)
  or_release (err e) w =
      let (r, s) = I.release req.idempotency_key w.store in
      elim env.release_fault [
        | clear ↦ (do acked r; raise e) (record w { store = s })
        | before ↦ (err (failed r), w)
        | after ↦ (err (failed r), record w { store = s })
      ]

  unfoldable pub guarded : Wallet → Exec I.State String
  unfolding or_release acked
  guarded x w = let (r, w') = attempt x w in or_release r w'

  unfoldable pub response : Wallet → String → Bool → SendResponse
  response x txid is_duplicate = record {
    txid = txid;
    from_address = x.address;
    wallet = x.name;
    to_address = req.to_address;
    amount = req.amount;
    idempotency_key = req.idempotency_key;
    status = if is_duplicate then duplicate else broadcast;
  }

  unfoldable pub proceed : Wallet → Option String → Exec I.State SendResponse
  proceed x (some txid) = do
    record_event x send_duplicate txid "duplicate"
    pure (response x txid true)
  proceed x none = do
    txid ← guarded x
    record_event x send_success txid "broadcast"
    pure (response x txid false)

  unfoldable pub send : Exec I.State SendResponse
  send = do x ← resolve_wallet; validate; risk_preflight x; existing ← reserve; proceed x existing
