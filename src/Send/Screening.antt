-- ===== src/Send/Screening.antt =====
-- What `_send_impl` has checked before anything is broadcast.
use skr_crypto.Idempotency.{Store}
use skr_crypto.Wallets.Pool.{Wallet, Resolved, resolve}
use skr_crypto.Risk.Assess.{assess_risk, should_block, at_high}
use skr_crypto.Risk.Levels.{is_valid, is_dangerous, blocked_at_high}
use skr_crypto.Send.Types.{Result, ok, err, Request, Env, World, Exec, continue}
use skr_crypto.Send.Handler.{
  validate_tron_address, is_at_none, resolve_wallet, validate, record_event, reject, risk_preflight,
  send,
}
use skr_crypto.Send.Effects.{resolve_wallet-Quiet, validate-Quiet, risk_preflight-Quiet}
use skr_crypto.Send.Stages.{after_risk, after_validate, after_resolve}
use skr_crypto.Prelude.{
  Bool, true, false, ◌&&◌, ◌||◌, not, none, some, ◌≡◌, ◌≢◌, ◌∙◌, sym, refl, arith,
}

-- A stage that sends nothing was passed where something was sent after it.
passed_gate :
    {S A B : Type 0} (r : Result A) (f : A → Exec S B) (w w₁ : World S)
    → w₁.sent ≡ w.sent
    → (continue r f w₁).1.sent ≢ w.sent
    → (a : A) × (r ≡ ok a) × ((f a w₁).1.sent ≢ w₁.sent)
passed_gate (ok a) f w w₁ e h = (a, refl, λ g. h (g ∙ e))
passed_gate (err x) f w w₁ e h = absurd (h e)

cleared_both : (v d : Bool) → (not v || d) ≡ false → (v ≡ true) × (d ≡ false)
cleared_both v d h = ground arith

module _ (I : Store) (env : Env) (req : Request) where
  -- The risk preflight is off, or its verdict does not block.
  abbrev pub Cleared : Type 0
  Cleared =
      (not (is_at_none env.block_level)
        && should_block (assess_risk req.to_address env.use_external env.recipient).level
            env.block_level)
      ≡ false

  resolve_wallet-ok :
      (x : Wallet) (w : World I.State)
      → (resolve_wallet I env req w).0 ≡ ok x
      → resolve req.wallet (some env.pool_balance) true env.pool ≡ Resolved.wallet x
  unfolding resolve_wallet
  resolve_wallet-ok x w h = ground arith

  validate-ok :
      (w : World I.State)
      → (validate I env req w).0 ≡ ok tt
      → validate_tron_address req.to_address env.recipient.decoded ≡ none
  unfolding validate
  validate-ok w h = ground arith

  risk_preflight-ok :
      (x : Wallet) (w : World I.State) → (risk_preflight I env req x w).0 ≡ ok tt → Cleared
  unfolding risk_preflight reject record_event
  risk_preflight-ok x w h = ground arith

  -- Whatever the store holds, a call that broadcast anything has found a wallet of the pool for the
  -- request, has accepted the recipient's address, and has assessed its risk without blocking it,
  -- unless the configured level is "none".
  pub sent_screened :
      (w : World I.State)
      → (send I env req w).1.sent ≢ w.sent
      → ((x : Wallet) × (resolve req.wallet (some env.pool_balance) true env.pool
            ≡ Resolved.wallet x))
        × (validate_tron_address req.to_address env.recipient.decoded ≡ none)
        × Cleared
  unfolding send after_resolve after_validate after_risk
  sent_screened w h =
      let (x, e, h₁) =
        passed_gate (resolve_wallet I env req w).0 (after_resolve I env req) w
          (resolve_wallet I env req w).1 (resolve_wallet-Quiet I env req w).1 h in
      let w₁ : World I.State = (resolve_wallet I env req w).1 in
      let (u, e₁, h₂) =
        passed_gate (validate I env req w₁).0 (λ _. after_validate I env req x) w₁
          (validate I env req w₁).1 (validate-Quiet I env req w₁).1 h₁ in
      let w₂ : World I.State = (validate I env req w₁).1 in
      let (u', e₂, h₃) =
        passed_gate (risk_preflight I env req x w₂).0 (λ _. after_risk I env req x) w₂
          (risk_preflight I env req x w₂).1 (risk_preflight-Quiet I env req x w₂).1 h₂ in
      ((x, resolve_wallet-ok x w e), validate-ok w₁ e₁, risk_preflight-ok x w₂ e₂)

  is_at_none-high : env.block_level ≡ at_high → is_at_none env.block_level ≡ false
  is_at_none-high h = rw h refl

  -- With RISK_BLOCK_LEVEL=high a call that broadcast anything has a recipient with a valid address that
  -- is no burn address, no contract, and neither on Tether's list nor on the loaded OFAC list, nor
  -- flagged by a provider that was asked, as far as the replies to its lookups tell.
  pub sent_not_dangerous :
      (w : World I.State)
      → env.block_level ≡ at_high
      → (send I env req w).1.sent ≢ w.sent
      → (is_valid req.to_address env.recipient ≡ true)
        × (is_dangerous req.to_address env.use_external env.recipient ≡ false)
  sent_not_dangerous w h s =
      let c : Cleared = (sent_screened w s).2 in
      let b : should_block (assess_risk req.to_address env.use_external env.recipient).level
            env.block_level
          ≡ false =
        rw (is_at_none-high h) at c in
      let d : (not (is_valid req.to_address env.recipient)
            || is_dangerous req.to_address env.use_external env.recipient)
          ≡ false =
        sym (blocked_at_high req.to_address env.use_external env.recipient) ∙ (rw h at b) in
      cleared_both (is_valid req.to_address env.recipient)
        (is_dangerous req.to_address env.use_external env.recipient) d
