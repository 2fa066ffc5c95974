-- ===== src/Send/Open.antt =====
-- What `/send` does to the connection of the idempotency store.
use skr_crypto.Send.Stages.{
  Reserves, reserve-Reserves, after_guarded, record_event-ends, after_risk, after_validate,
  after_resolve,
}
use skr_crypto.Audit.{Event, send_success, send_duplicate}
use skr_crypto.Idempotency.{Store, in_flight}
use skr_crypto.Wallets.Pool.{Wallet}
use skr_crypto.Send.Types.{
  Result, ok, err, Request, SendResponse, Env, World, Exec, ◌>>◌, pure, continue,
}
use skr_crypto.Send.Handler.{
  resolve_wallet, validate, record_event, risk_preflight, reserve, guarded, proceed, response, send,
}
use skr_crypto.Send.Effects.{
  record_event-Quiet, resolve_wallet-Quiet, validate-Quiet, risk_preflight-Quiet, guarded-IsOpen,
}
use skr_crypto.Prelude.{String, true, false, Option, none, some, ◌≡◌, inl, inr, arith, eq_refl}

module _ (I : Store) (env : Env) (req : Request) where
  recorded-IsOpen :
      (x : Wallet) (event : Event) (t result : String) (a : SendResponse) (w : World I.State)
      → I.IsOpen w.store
      → I.IsOpen ((record_event I env req x event t result >> pure a) w).1.store
  recorded-IsOpen x event t result a w o =
      let o' : I.IsOpen (record_event I env req x event t result w).1.store =
        rw (record_event-Quiet I env req x event t result w).0 o in
      elim (record_event-ends I env req x event t result w) [ inl g ↦ rw g o' | inr g ↦ rw g o' ]

  after_guarded-IsOpen :
      (r : Result String) (x : Wallet) (w : World I.State)
      → I.IsOpen w.store
      → I.IsOpen (continue r (after_guarded I env req x) w).1.store
  unfolding after_guarded
  after_guarded-IsOpen (ok t) x w o =
      recorded-IsOpen x send_success t "broadcast" (response I env req x t false) w o
  after_guarded-IsOpen (err f) x w o = o

  proceed-IsOpen :
      (r : Result (Option String)) (x : Wallet) (w w₁ : World I.State)
      → Reserves I env req w (r, w₁)
      → I.IsOpen (continue r (proceed I env req x) w₁).1.store
  unfolding proceed after_guarded
  proceed-IsOpen (err f) x w w₁ (e, o, r) = o
  proceed-IsOpen (ok (some t)) x w w₁ (e, o, r) =
      recorded-IsOpen x send_duplicate t "duplicate" (response I env req x t true) w₁ o
  proceed-IsOpen (ok none) x w w₁ (e, o, (c, h)) =
      let flight : I.phase w₁.store req.idempotency_key ≡ in_flight =
        ground (arith, c req.idempotency_key, h, eq_refl req.idempotency_key) in
      after_guarded-IsOpen (guarded I env req x w₁).0 x (guarded I env req x w₁).1
        (guarded-IsOpen I env req x w₁ o flight)

  bind-IsOpen :
      {A : Type 0} (r : Result A) (f : A → Exec I.State SendResponse) (w w₁ : World I.State)
      → w₁.store ≡ w.store
      → I.IsOpen w.store
      → ((a : A) (v : World I.State) → I.IsOpen v.store → I.IsOpen (f a v).1.store)
      → I.IsOpen (continue r f w₁).1.store
  bind-IsOpen (ok a) f w w₁ p o h = h a w₁ (rw p o)
  bind-IsOpen (err e) f w w₁ p o h = rw p o

  after_risk-IsOpen :
      (x : Wallet) (w : World I.State)
      → I.IsOpen w.store
      → I.IsOpen (after_risk I env req x w).1.store
  unfolding after_risk
  after_risk-IsOpen x w o =
      proceed-IsOpen (reserve I env req w).0 x w (reserve I env req w).1
        (reserve-Reserves I env req w o)

  after_resolve-IsOpen :
      (x : Wallet) (w : World I.State)
      → I.IsOpen w.store
      → I.IsOpen (after_resolve I env req x w).1.store
  unfolding after_resolve after_validate
  after_resolve-IsOpen x w o =
      bind-IsOpen (validate I env req w).0 (λ _. after_validate I env req x) w
        (validate I env req w).1 (validate-Quiet I env req w).0 o
        λ _ v o'.
          bind-IsOpen (risk_preflight I env req x v).0 (λ _. after_risk I env req x) v
            (risk_preflight I env req x v).1 (risk_preflight-Quiet I env req x v).0 o'
            (λ _ u. after_risk-IsOpen x u)

  -- No call closes the store.
  pub send-IsOpen : (w : World I.State) → I.IsOpen w.store → I.IsOpen (send I env req w).1.store
  unfolding send after_resolve after_validate after_risk
  send-IsOpen w o =
      bind-IsOpen (resolve_wallet I env req w).0 (after_resolve I env req) w
        (resolve_wallet I env req w).1 (resolve_wallet-Quiet I env req w).0 o after_resolve-IsOpen
