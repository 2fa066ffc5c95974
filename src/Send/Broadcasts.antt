-- ===== src/Send/Broadcasts.antt =====
-- What `_send_impl` broadcasts, and under which conditions.
use mathlib.Core.Path.{subst, subst₂}
use skr_crypto.Exceptions.{Reply, returned, raised}
use skr_crypto.Idempotency.{Store}
use skr_crypto.Wallets.Pool.{Wallet}
use skr_crypto.Wallets.Signing.{Transfer, answer, send_usdt, make_transfer, read_response}
use skr_crypto.TronClient.Fees.{compute_fee_limit_sun}
use skr_crypto.Send.Types.{Result, ok, err, Request, Env, World, Exec, ◌>>=◌, ◌>>◌, pure, continue}
use skr_crypto.Send.Handler.{record_event, preflight, checked, transfer, commit, attempt}
use skr_crypto.Send.Effects.{checked-Quiet}
use skr_crypto.Prelude.{
  ℕ, String, Bool, true, false, some, List, ◌∷◌, ◌≡◌, ◌⊎◌, inl, refl, arith, leb,
}

-- A balance that was read and is at least `n`.
abbrev pub covers : ℕ → Reply ℕ → Bool
covers n (returned b) = leb n b
covers n (raised e) = false

module _ (I : Store) (env : Env) (req : Request) where
  abbrev pub Funded : Type 0
  Funded =
      (covers req.amount env.usdt_balance ≡ true)
      × (covers env.min_trx_reserve env.trx_balance ≡ true)

  abbrev pub fee_limit : ℕ
  fee_limit = compute_fee_limit_sun env.fees env.estimated_energy env.energy_price

  abbrev pub payment : Wallet → ℕ → Transfer
  payment x fee = make_transfer env.fees x req.to_address req.amount (some fee)

  preflight-ok :
      (x : Wallet) (fee : ℕ) (w : World I.State)
      → (preflight I env req x w).0 ≡ ok fee
      → Funded × (fee ≡ fee_limit)
  unfolding preflight record_event
  preflight-ok x fee w h = ground arith

  checked-ok :
      (x : Wallet) (fee : ℕ) (w : World I.State)
      → (checked I env req x w).0 ≡ ok fee
      → Funded × (fee ≡ fee_limit)
  unfolding checked record_event
  checked-ok x fee w h = ground (arith, preflight-ok x fee w)

  -- The result of a stage that may send the payment `p` once: with a txid, the node has accepted it.
  -- Without a broadcast the store is as it was.
  abbrev pub SendsOnce : Transfer → List Transfer → I.State → Result String × World I.State → Type 0
  SendsOnce p old s r = elim r.0 [
    | ok t ↦ (r.1.sent ≡ p ∷ old) × (env.network ≡ returned (answer true t))
    | err e ↦ ((r.1.sent ≡ old) × (r.1.store ≡ s)) ⊎ (r.1.sent ≡ p ∷ old)
  ]

  transfer-SendsOnce :
      (x : Wallet) (fee : ℕ) (w : World I.State)
      → SendsOnce (payment x fee) w.sent w.store (transfer I env req x fee w)
  unfolding transfer record_event send_usdt read_response
  transfer-SendsOnce x fee w = ground arith

  after_transfer-SendsOnce :
      (r : Result String) (p : Transfer) (old : List Transfer) (s : I.State) (w : World I.State)
      → SendsOnce p old s (r, w)
      → SendsOnce p old s (continue r (λ t. commit I env req t >> pure t) w)
  unfolding commit
  after_transfer-SendsOnce (ok t) p old s w h = ground arith
  after_transfer-SendsOnce (err f) p old s w h = h

  -- A request that holds its key broadcasts only what it was asked for, at most once, and only when both
  -- balances cover it.
  abbrev pub Pays : Wallet → List Transfer → I.State → Result String × World I.State → Type 0
  Pays x old s r = elim r.0 [
    | ok t ↦
        Funded × (r.1.sent ≡ payment x fee_limit ∷ old) × (env.network ≡ returned (answer true t))
    | err e ↦
        ((r.1.sent ≡ old) × (r.1.store ≡ s)) ⊎ (Funded × (r.1.sent ≡ payment x fee_limit ∷ old))
  ]

  Pays-SendsOnce :
      (x : Wallet) (old : List Transfer) (s : I.State) (r : Result String × World I.State)
      → Funded
      → SendsOnce (payment x fee_limit) old s r
      → Pays x old s r
  Pays-SendsOnce x old s r f h = ground arith

  -- `attempt` after the checks.
  abbrev pub pay_with : Wallet → ℕ → Exec I.State String
  pay_with x fee = transfer I env req x fee >>= λ t. commit I env req t >> pure t

  pay_with-SendsOnce :
      (x : Wallet) (fee : ℕ) (w : World I.State)
      → SendsOnce (payment x fee) w.sent w.store (pay_with x fee w)
  pay_with-SendsOnce x fee w =
      after_transfer-SendsOnce (transfer I env req x fee w).0 (payment x fee) w.sent w.store
        (transfer I env req x fee w).1 (transfer-SendsOnce x fee w)

  after_checked-Pays :
      (r : Result ℕ) (x : Wallet) (old : List Transfer) (s : I.State) (w : World I.State)
      → w.sent ≡ old
      → w.store ≡ s
      → ((fee : ℕ) → r ≡ ok fee → Funded × (fee ≡ fee_limit))
      → Pays x old s (continue r (pay_with x) w)
  after_checked-Pays (ok fee) x old s w e g h =
      Pays-SendsOnce x old s (pay_with x fee w) (h fee refl).0 (
        subst₂ (λ f o. SendsOnce (payment x f) o s (pay_with x fee w)) (h fee refl).1 e
          (subst (λ z. SendsOnce (payment x fee) w.sent z (pay_with x fee w)) g
            (pay_with-SendsOnce x fee w)))
  after_checked-Pays (err f) x old s w e g h = inl (e, g)

  pub attempt-Pays :
      (x : Wallet) (w : World I.State) → Pays x w.sent w.store (attempt I env req x w)
  unfolding attempt
  attempt-Pays x w =
      after_checked-Pays (checked I env req x w).0 x w.sent w.store (checked I env req x w).1
        (checked-Quiet I env req x w).1 (checked-Quiet I env req x w).0
        (λ fee h. checked-ok x fee w h)
