-- ===== src/Send/Effects.antt =====
-- What each stage of `_send_impl` does to the store and to the list of broadcasts.
use skr_crypto.Audit.{Event}
use skr_crypto.Idempotency.{Store, in_flight, committed, freed, is_real}
use skr_crypto.Wallets.Pool.{Wallet}
use skr_crypto.Send.Types.{
  Failure, database_error, clear, before, after, Fault-cases, Result, ok, err, Request, Env, World,
  Exec, ◌>>=◌, ◌>>◌, pure, continue,
}
use skr_crypto.Send.Handler.{
  resolve_wallet, validate, record_event, risk_preflight, preflight, checked, transfer, commit,
  or_release, attempt, guarded,
}
use mathlib.Core.Path.{subst}
use skr_crypto.Prelude.{
  ℕ, String, ◌≡◌, ◌∙◌, refl, arith, str_eq, if◌then◌else◌, Bool-cases, inl, inr, ◌⊎◌,
}

-- A stage that calls neither the store nor the node.
abbrev pub Quiet : {S A : Type 0} → World S → Result A × World S → Type 0
Quiet w r = (r.1.store ≡ w.store) × (r.1.sent ≡ w.sent)

module _ (I : Store) (env : Env) (req : Request) where
  pub record_event-Quiet :
      (x : Wallet) (event : Event) (txid result : String) (w : World I.State)
      → Quiet w (record_event I env req x event txid result w)
  unfolding record_event
  record_event-Quiet x event txid result w = ground arith

  pub resolve_wallet-Quiet : (w : World I.State) → Quiet w (resolve_wallet I env req w)
  unfolding resolve_wallet
  resolve_wallet-Quiet w = ground arith

  pub validate-Quiet : (w : World I.State) → Quiet w (validate I env req w)
  unfolding validate
  validate-Quiet w = ground arith

  pub risk_preflight-Quiet :
      (x : Wallet) (w : World I.State) → Quiet w (risk_preflight I env req x w)
  unfolding risk_preflight record_event
  risk_preflight-Quiet x w = ground arith

  preflight-Quiet : (x : Wallet) (w : World I.State) → Quiet w (preflight I env req x w)
  unfolding preflight record_event
  preflight-Quiet x w = ground arith

  pub checked-Quiet : (x : Wallet) (w : World I.State) → Quiet w (checked I env req x w)
  unfolding checked record_event
  checked-Quiet x w = ground (arith, preflight-Quiet x w)

  transfer-store :
      (x : Wallet) (fee : ℕ) (w : World I.State) → (transfer I env req x fee w).1.store ≡ w.store
  unfolding transfer record_event
  transfer-store x fee w = ground arith

  -- The store after a commit of `t`.
  abbrev pub Holds : String → I.State → I.State → Type 0
  Holds t s s' =
      I.IsOpen s'
      × ((j : String)
          → I.phase s' j ≡ (if str_eq req.idempotency_key j then committed t else I.phase s j))

  -- A key in flight is committed, or the store is as it was; or the commit raised after its UPDATE.
  abbrev pub Stored : I.State → Result String × World I.State → Type 0
  Stored s r = elim r.0 [
    | ok t ↦ (env.commit_fault ≡ clear) × Holds t s r.1.store
    | err e ↦ (r.1.store ≡ s) ⊎ ((t : String) × (env.commit_fault ≡ after) × Holds t s r.1.store)
  ]

  finish : String → Exec I.State String
  finish t = commit I env req t >> pure t

  finish-Stored :
      (t : String) (w : World I.State)
      → I.IsOpen w.store
      → I.phase w.store req.idempotency_key ≡ in_flight
      → Stored w.store (finish t w)
  unfolding finish commit
  finish-Stored t w o h = elim (Bool-cases (is_real t)) [
    | inl real ↦
        let holds : Holds t w.store (I.commit env.now req.idempotency_key t w.store).1 = (
          I.commit-IsOpen env.now req.idempotency_key t w.store o,
          λ j. I.phase-commit env.now req.idempotency_key t j w.store o real h,
        ) in
        elim (Fault-cases env.commit_fault) [
          | inl c ↦ rw (c, I.commit-done env.now req.idempotency_key t w.store o real) (refl, holds)
          | inr (inl b) ↦ rw b (inl refl)
          | inr (inr a) ↦ rw a (inr (t, refl, holds))
        ]
    | inr fake ↦ elim (Fault-cases env.commit_fault) [
      | inl c ↦ rw (c, I.commit-invalid env.now req.idempotency_key t w.store fake) (inl refl)
      | inr (inl b) ↦ rw b (inl refl)
      | inr (inr a) ↦ rw (a, I.commit-invalid env.now req.idempotency_key t w.store fake) (inl refl)
    ]
  ]

  after_fee : Wallet → ℕ → Exec I.State String
  unfolding finish
  after_fee x fee = transfer I env req x fee >>= finish

  after_transfer-Stored :
      (r : Result String) (s : I.State) (w : World I.State)
      → w.store ≡ s
      → I.IsOpen s
      → I.phase s req.idempotency_key ≡ in_flight
      → Stored s (continue r finish w)
  after_transfer-Stored (ok t) s w e o h =
      subst (λ z. Stored z (finish t w)) e (finish-Stored t w (rw e o) (rw e h))
  after_transfer-Stored (err f) s w e o h = inl e

  after_checked-Stored :
      (r : Result ℕ) (x : Wallet) (s : I.State) (w : World I.State)
      → w.store ≡ s
      → I.IsOpen s
      → I.phase s req.idempotency_key ≡ in_flight
      → Stored s (continue r (after_fee x) w)
  unfolding after_fee
  after_checked-Stored (ok fee) x s w e o h =
      after_transfer-Stored (transfer I env req x fee w).0 s (transfer I env req x fee w).1
        (transfer-store x fee w ∙ e) o h
  after_checked-Stored (err f) x s w e o h = inl e

  pub attempt-Stored :
      (x : Wallet) (w : World I.State)
      → I.IsOpen w.store
      → I.phase w.store req.idempotency_key ≡ in_flight
      → Stored w.store (attempt I env req x w)
  unfolding attempt after_fee finish
  attempt-Stored x w o h =
      after_checked-Stored (checked I env req x w).0 x w.store (checked I env req x w).1
        (checked-Quiet x w).0 o h

  -- What the release after a failure does: nothing, where its DELETE raises, or it frees the key if it
  -- is in flight.
  abbrev pub Releases : World I.State → Result String × World I.State → Type 0
  Releases w r =
      ((g : Failure) × (r.0 ≡ err g))
      × (r.1.sent ≡ w.sent)
      × I.IsOpen r.1.store
      × (((env.release_fault ≡ before) × (r.1.store ≡ w.store))
          ⊎ ((j : String)
              → I.phase r.1.store j ≡ (
                  if str_eq req.idempotency_key j
                  then freed (I.phase w.store req.idempotency_key)
                  else I.phase w.store j)))

  pub or_release-Releases :
      (f : Failure) (w : World I.State)
      → I.IsOpen w.store
      → Releases w (or_release I env req (err f) w)
  unfolding or_release
  or_release-Releases f w o =
      let opened = I.release-IsOpen req.idempotency_key w.store o in
      let done = I.release-done req.idempotency_key w.store o in
      let phases = λ (j : String). I.phase-release req.idempotency_key j w.store o in
      elim (Fault-cases env.release_fault) [
        | inl c ↦ rw (c, done) ((f, refl), refl, opened, inr phases)
        | inr (inl b) ↦ rw (b, done) ((database_error, refl), refl, o, inl (refl, refl))
        | inr (inr a) ↦ rw (a, done) ((database_error, refl), refl, opened, inr phases)
      ]

  Stored-IsOpen :
      (f : Failure) (s : I.State) (w : World I.State)
      → I.IsOpen s
      → Stored s (err f, w)
      → I.IsOpen w.store
  Stored-IsOpen f s w o (inl e) = rw e o
  Stored-IsOpen f s w o (inr (t, a, h)) = h.0

  or_release-IsOpen :
      (r : Result String) (s : I.State) (w : World I.State)
      → I.IsOpen s
      → Stored s (r, w)
      → I.IsOpen (or_release I env req r w).1.store
  unfolding or_release
  or_release-IsOpen (ok t) s w o h = h.1.0
  or_release-IsOpen (err f) s w o h = (or_release-Releases f w (Stored-IsOpen f s w o h)).2

  pub guarded-IsOpen :
      (x : Wallet) (w : World I.State)
      → I.IsOpen w.store
      → I.phase w.store req.idempotency_key ≡ in_flight
      → I.IsOpen (guarded I env req x w).1.store
  unfolding guarded
  guarded-IsOpen x w o h =
      or_release-IsOpen (attempt I env req x w).0 w.store (attempt I env req x w).1 o
        (attempt-Stored x w o h)
