-- ===== src/Send/Stages.antt =====
-- The stages of `_send_impl` that follow one another, and what `reserve` answers.

use skr_crypto.Audit.{Event, send_success}
use skr_crypto.Idempotency.{Store, Phase, free, in_flight, unresolved, committed, claim}
use skr_crypto.Idempotency.Wait.{reserve_wait}
use skr_crypto.Wallets.Pool.{Wallet}
use skr_crypto.Send.Types.{
  audit_error, database_error, conflict, unresolved_key, Fault, clear, before, after, Result, ok,
  err, Request, SendResponse, Env, World, Exec, ◌>>=◌, ◌>>◌, pure,
}
use skr_crypto.Send.Handler.{validate, record_event, risk_preflight, reserve, proceed, response}
use mathlib.Core.Path.{subst}
use skr_crypto.Prelude.{
  String, false, sym, refl, inl, inr, Option, none, some, ◌≡◌, ◌⊎◌, arith, str_eq, eq_iff,
  if◌then◌else◌,
}

module _ (I : Store) (env : Env) (req : Request) where
  -- The key is claimed, if it was free, and no other key changes.
  abbrev pub Claims : I.State → I.State → Type 0
  Claims s s' =
      (j : String)
      → I.phase s' j ≡ (
          if str_eq req.idempotency_key j
          then claim (I.phase s req.idempotency_key)
          else I.phase s j)

  -- What `reserve` answers: `none` exactly for a free key, which is then in flight, a txid for a
  -- committed one; or it fails, and claims nothing unless the connection's commit raised.
  abbrev pub Reserves : World I.State → Result (Option String) × World I.State → Type 0
  Reserves w r = (r.1.sent ≡ w.sent) × I.IsOpen r.1.store × (elim r.0 [
    | ok existing ↦ Claims w.store r.1.store × (elim existing [
      | none ↦ I.phase w.store req.idempotency_key ≡ free
      | some t ↦ I.phase w.store req.idempotency_key ≡ committed t
    ])
    | err f ↦
        ((j : String) → I.phase r.1.store j ≡ I.phase w.store j)
        ⊎ ((env.reserve_fault ≡ after)
            × (I.phase w.store req.idempotency_key ≡ free)
            × Claims w.store r.1.store)
  ])

  outcome : Fault → Phase → World I.State → I.State → Result (Option String) × World I.State
  outcome before p w s = (err database_error, w)
  outcome clear free w s = (ok none, record w { store = s })
  outcome after free w s = (err database_error, record w { store = s })
  outcome f (committed t) w s = (ok (some t), record w { store = s })
  outcome f in_flight w s = (err conflict, w)
  outcome f unresolved w s = (err unresolved_key, record w { store = s })

  reserve-outcome :
      (f : Fault) (p : Phase) (w : World I.State)
      → I.IsOpen w.store
      → env.reserve_fault ≡ f
      → I.phase w.store req.idempotency_key ≡ p
      → reserve I env req w ≡ outcome f p w (I.reserve env.now req.idempotency_key w.store).1
  unfolding reserve reserve_wait outcome
  reserve-outcome f p w o e h =
      ground (arith, I.reserve-answer env.now req.idempotency_key w.store o)

  unresolved-Same :
      (w : World I.State)
      → I.IsOpen w.store
      → I.phase w.store req.idempotency_key ≡ unresolved
      → (j : String)
      → I.phase (I.reserve env.now req.idempotency_key w.store).1 j ≡ I.phase w.store j
  unresolved-Same w o h j =
      ground (
        arith,
        I.phase-reserve env.now req.idempotency_key j w.store o,
        eq_iff req.idempotency_key j,
      )

  outcome-Reserves :
      (f : Fault) (p : Phase) (w : World I.State)
      → I.IsOpen w.store
      → env.reserve_fault ≡ f
      → I.phase w.store req.idempotency_key ≡ p
      → Reserves w (outcome f p w (I.reserve env.now req.idempotency_key w.store).1)
  unfolding outcome
  outcome-Reserves before p w o e h = (refl, o, inl (λ j. refl))
  outcome-Reserves clear free w o e h = (
    refl,
    I.reserve-IsOpen env.now req.idempotency_key w.store o,
    ((λ j. I.phase-reserve env.now req.idempotency_key j w.store o), h),
  )
  outcome-Reserves after free w o e h = (
    refl,
    I.reserve-IsOpen env.now req.idempotency_key w.store o,
    inr (e, h, λ j. I.phase-reserve env.now req.idempotency_key j w.store o),
  )
  outcome-Reserves clear (committed t) w o e h = (
    refl,
    I.reserve-IsOpen env.now req.idempotency_key w.store o,
    ((λ j. I.phase-reserve env.now req.idempotency_key j w.store o), h),
  )
  outcome-Reserves after (committed t) w o e h = (
    refl,
    I.reserve-IsOpen env.now req.idempotency_key w.store o,
    ((λ j. I.phase-reserve env.now req.idempotency_key j w.store o), h),
  )
  outcome-Reserves clear in_flight w o e h = (refl, o, inl (λ j. refl))
  outcome-Reserves after in_flight w o e h = (refl, o, inl (λ j. refl))
  outcome-Reserves clear unresolved w o e h =
      (refl, I.reserve-IsOpen env.now req.idempotency_key w.store o, inl (unresolved-Same w o h))
  outcome-Reserves after unresolved w o e h =
      (refl, I.reserve-IsOpen env.now req.idempotency_key w.store o, inl (unresolved-Same w o h))

  pub reserve-Reserves : (w : World I.State) → I.IsOpen w.store → Reserves w (reserve I env req w)
  reserve-Reserves w o =
      let f = env.reserve_fault in
      let p = I.phase w.store req.idempotency_key in
      subst (λ r. Reserves w r) (sym (reserve-outcome f p w o refl refl))
        (outcome-Reserves f p w o refl refl)

  -- `proceed` after the guarded part.
  unfoldable pub after_guarded : Wallet → String → Exec I.State SendResponse
  after_guarded x t =
      record_event I env req x send_success t "broadcast" >> pure (response I env req x t false)

  pub record_event-ends :
      (x : Wallet) (event : Event) (txid result : String) (w : World I.State)
      → ((record_event I env req x event txid result w).0 ≡ ok tt)
        ⊎ ((record_event I env req x event txid result w).0 ≡ err audit_error)
  unfolding record_event
  record_event-ends x event txid result w = ground arith

  -- The last stages of `send`, from the second on.
  unfoldable pub after_risk : Wallet → Exec I.State SendResponse
  after_risk x = reserve I env req >>= proceed I env req x

  unfoldable pub after_validate : Wallet → Exec I.State SendResponse
  after_validate x = risk_preflight I env req x >>= λ _. after_risk x

  unfoldable pub after_resolve : Wallet → Exec I.State SendResponse
  after_resolve x = validate I env req >>= λ _. after_validate x
