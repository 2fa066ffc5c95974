-- ===== src/Send/Safety.antt =====
-- How each stage of one call of `/send` ends, over any idempotency store.
use skr_crypto.Send.Fate.{
  Same, Stores, Paid, Fate, refused, repeated, unstored, unaudited, paid, stuck, unconfirmed,
  bind-Fate,
}
use skr_crypto.Send.Stages.{
  Claims, Reserves, reserve-Reserves, after_guarded, record_event-ends, after_risk, after_validate,
  after_resolve,
}
use skr_crypto.Exceptions.{returned}
use skr_crypto.Audit.{send_success, send_duplicate}
use skr_crypto.Idempotency.{Store, free, in_flight, committed}
use skr_crypto.Wallets.Pool.{Wallet}
use skr_crypto.Wallets.Signing.{answer}
use skr_crypto.Send.Types.{
  audit_error, clear, after, Result, ok, err, Request, Env, World, continue,
}
use skr_crypto.Send.Handler.{
  resolve_wallet, validate, risk_preflight, reserve, attempt, or_release, guarded, proceed, send,
}
use skr_crypto.Send.Effects.{
  record_event-Quiet, resolve_wallet-Quiet, validate-Quiet, risk_preflight-Quiet, Stored,
  attempt-Stored, Releases, or_release-Releases,
}
use skr_crypto.Send.Broadcasts.{Funded, payment, fee_limit, Pays, attempt-Pays}
use skr_crypto.Prelude.{
  String, true, Option, none, some, ◌∷◌, ◌≡◌, ◌⊎◌, inl, inr, refl, arith, ap, ◌∙◌, eq_iff, eq_refl,
}

module _ (I : Store) (env : Env) (req : Request) where
  stored-Fate :
      (x : Wallet) (t : String) (w w' : World I.State)
      → I.phase w.store req.idempotency_key ≡ free
      → Stores I env req t w.store w'.store
      → w'.sent ≡ payment I env req x (fee_limit I env req) ∷ w.sent
      → Funded I env req
      → env.network ≡ returned (answer true t)
      → env.commit_fault ≡ clear
      → Fate I env req w (after_guarded I env req x t w')
  unfolding after_guarded
  stored-Fate x t w w' h s e fd n c =
      let q = record_event-Quiet I env req x send_success t "broadcast" w' in
      elim (record_event-ends I env req x send_success t "broadcast" w') [
        | inl g ↦
            paid x t (rw g) h (λ j. rw g (ap (λ z. I.phase z j) q.0 ∙ s j)) (rw g (q.1 ∙ e)) fd n c
        | inr g ↦
            unaudited x t (rw g) h (λ j. rw g (ap (λ z. I.phase z j) q.0 ∙ s j)) (rw g (q.1 ∙ e)) fd
              c
      ]

  -- The release after a failure of a request that held its key, where no txid is stored.
  unstored-Fate :
      (q : Result String) (x : Wallet) (w w₁ w' v : World I.State)
      → I.phase w.store req.idempotency_key ≡ free
      → I.phase w₁.store req.idempotency_key ≡ in_flight
      → Claims I env req w.store w₁.store
      → w'.store ≡ w₁.store
      → (w'.sent ≡ w.sent) ⊎ Paid I env req w w'
      → Releases I env req w' (q, v)
      → Fate I env req w (continue q (after_guarded I env req x) v)
  unstored-Fate (ok t) x w w₁ w' v h flight c e p r = absurd (ground (arith, r.0.1))
  unstored-Fate (err g) x w w₁ w' v h flight c e p (fails, sent, opened, inl (b, same)) =
      stuck g refl h (λ j. ground (arith, c j, ap (λ z. I.phase z j) (same ∙ e)))
        (inr (b, rw sent p))
  unstored-Fate (err g) x w w₁ w' v h flight c e p (fails, sent, opened, inr phases) =
      let key = req.idempotency_key in
      let same : Same I env req w.store v.store = λ j.
        ground (
          arith,
          phases j,
          c j,
          ap (λ z. I.phase z j) e,
          ap (λ z. I.phase z key) e,
          eq_iff key j,
        ) in
      elim p [
        | inl n ↦ refused g refl same (sent ∙ n)
        | inr (y, n, fd) ↦ unstored y g refl h same (sent ∙ n) fd
      ]

  -- The same where a txid is stored: the release leaves it.
  unconfirmed-Fate :
      (q : Result String) (x : Wallet) (t : String) (w w' v : World I.State)
      → I.phase w.store req.idempotency_key ≡ free
      → Stores I env req t w.store w'.store
      → Paid I env req w w'
      → env.commit_fault ≡ after
      → Releases I env req w' (q, v)
      → Fate I env req w (continue q (after_guarded I env req x) v)
  unconfirmed-Fate (ok u) x t w w' v h s p c r = absurd (ground (arith, r.0.1))
  unconfirmed-Fate (err g) x t w w' v h s p c (fails, sent, opened, inl (b, same)) =
      unconfirmed g t refl h (λ j. rw same (s j)) (rw sent p) c
  unconfirmed-Fate (err g) x t w w' v h s p c (fails, sent, opened, inr phases) =
      unconfirmed g t refl h
        (λ j. ground (
          arith,
          phases j,
          s j,
          s req.idempotency_key,
          eq_refl req.idempotency_key,
          eq_iff req.idempotency_key j,
        ))
        (rw sent p) c

  -- What the request's payment adds to the broadcasts before it took the key.
  earlier-Paid :
      (x : Wallet) (w w₁ w' : World I.State)
      → w₁.sent ≡ w.sent
      → Funded I env req
      → w'.sent ≡ payment I env req x (fee_limit I env req) ∷ w₁.sent
      → Paid I env req w w'
  earlier-Paid x w w₁ w' e f n =
      (x, n ∙ ap (λ o. payment I env req x (fee_limit I env req) ∷ o) e, f)

  guarded-Fate :
      (r : Result String) (x : Wallet) (w w₁ w' : World I.State)
      → I.IsOpen w₁.store
      → I.phase w.store req.idempotency_key ≡ free
      → I.phase w₁.store req.idempotency_key ≡ in_flight
      → Claims I env req w.store w₁.store
      → w₁.sent ≡ w.sent
      → Stored I env req w₁.store (r, w')
      → Pays I env req x w₁.sent w₁.store (r, w')
      → let q = or_release I env req r w' in
        Fate I env req w (continue q.0 (after_guarded I env req x) q.1)
  unfolding or_release
  guarded-Fate (ok t) x w w₁ w' o h flight c e s p =
      stored-Fate x t w w' h (λ j. ground (arith, s.1.1 j, c j)) (ground arith) p.0 p.2 s.0
  guarded-Fate (err f) x w w₁ w' o h flight c e s (inl (n, same)) =
      let q = or_release I env req (err f) w' in
      unstored-Fate q.0 x w w₁ w' q.1 h flight c same (inl (n ∙ e))
        (or_release-Releases I env req f w' (rw same o))
  guarded-Fate (err f) x w w₁ w' o h flight c e (inl same) (inr (fd, n)) =
      let q = or_release I env req (err f) w' in
      unstored-Fate q.0 x w w₁ w' q.1 h flight c same (inr (earlier-Paid x w w₁ w' e fd n))
        (or_release-Releases I env req f w' (rw same o))
  guarded-Fate (err f) x w w₁ w' o h flight c e (inr (t, a, holds)) (inr (fd, n)) =
      let q = or_release I env req (err f) w' in
      unconfirmed-Fate q.0 x t w w' q.1 h (λ j. ground (arith, holds.1 j, c j))
        (earlier-Paid x w w₁ w' e fd n) a (or_release-Releases I env req f w' holds.0)

  duplicate-Fate :
      (x : Wallet) (t : String) (w w₁ : World I.State)
      → I.phase w.store req.idempotency_key ≡ committed t
      → Claims I env req w.store w₁.store
      → w₁.sent ≡ w.sent
      → Fate I env req w (proceed I env req x (some t) w₁)
  unfolding proceed
  duplicate-Fate x t w w₁ h c e =
      let q = record_event-Quiet I env req x send_duplicate t "duplicate" w₁ in
      let same : Same I env req w.store w₁.store =
        λ j. ground (arith, c j, h, eq_iff req.idempotency_key j) in
      elim (record_event-ends I env req x send_duplicate t "duplicate" w₁) [
        | inl g ↦
            repeated x t (rw g) h (λ j. rw g (ap (λ z. I.phase z j) q.0 ∙ same j)) (rw g (q.1 ∙ e))
        | inr g ↦
            refused audit_error (rw g) (λ j. rw g (ap (λ z. I.phase z j) q.0 ∙ same j))
              (rw g (q.1 ∙ e))
      ]

  after_reserve-Fate :
      (r : Result (Option String)) (x : Wallet) (w w₁ : World I.State)
      → Reserves I env req w (r, w₁)
      → Fate I env req w (continue r (proceed I env req x) w₁)
  unfolding proceed after_guarded guarded
  after_reserve-Fate (ok none) x w w₁ (e, o, (c, h)) =
      let flight : I.phase w₁.store req.idempotency_key ≡ in_flight =
        ground (arith, c req.idempotency_key, h, eq_refl req.idempotency_key) in
      guarded-Fate (attempt I env req x w₁).0 x w w₁ (attempt I env req x w₁).1 o h flight c e
        (attempt-Stored I env req x w₁ o flight) (attempt-Pays I env req x w₁)
  after_reserve-Fate (ok (some t)) x w w₁ (e, o, (c, h)) = duplicate-Fate x t w w₁ h c e
  after_reserve-Fate (err f) x w w₁ (e, o, inl same) = refused f refl same e
  after_reserve-Fate (err f) x w w₁ (e, o, inr (a, h, c)) =
      stuck f refl h (λ j. ground (arith, c j, h)) (inl (a, e))

  after_risk-Fate :
      (x : Wallet) (w : World I.State)
      → I.IsOpen w.store
      → Fate I env req w (after_risk I env req x w)
  unfolding after_risk
  after_risk-Fate x w o =
      after_reserve-Fate (reserve I env req w).0 x w (reserve I env req w).1
        (reserve-Reserves I env req w o)

  after_validate-Fate :
      (x : Wallet) (w : World I.State)
      → I.IsOpen w.store
      → Fate I env req w (after_validate I env req x w)
  unfolding after_validate
  after_validate-Fate x w o =
      let q = risk_preflight-Quiet I env req x w in
      bind-Fate I env req (risk_preflight I env req x w).0 (λ _. after_risk I env req x) w
        (risk_preflight I env req x w).1 q.0 q.1 o (λ _ v. after_risk-Fate x v)

  after_resolve-Fate :
      (x : Wallet) (w : World I.State)
      → I.IsOpen w.store
      → Fate I env req w (after_resolve I env req x w)
  unfolding after_resolve
  after_resolve-Fate x w o =
      let q = validate-Quiet I env req w in
      bind-Fate I env req (validate I env req w).0 (λ _. after_validate I env req x) w
        (validate I env req w).1 q.0 q.1 o (λ _ v. after_validate-Fate x v)

  -- Every call of `/send` on an open store ends in one of seven ways: with a failure, nothing sent and
  -- every key as it was; with the txid of a committed key, nothing sent; with a failure after one
  -- broadcast, the key free again; with a failure of the last audit record, after one broadcast and
  -- with a txid stored; with the txid that the node accepted, after one broadcast and stored; with a
  -- failure after at most one broadcast and the key in flight, only where the database raised in the
  -- DELETE of the release, or when the reservation was committed, nothing sent then; or with a failure after one
  -- broadcast and a txid stored, only where the database raised when that txid was committed. A
  -- broadcast is the payment that was asked for, from some wallet, under the computed fee limit,
  -- with both balances read and sufficient.
  pub send-Fate : (w : World I.State) → I.IsOpen w.store → Fate I env req w (send I env req w)
  unfolding send after_resolve after_validate after_risk
  send-Fate w o =
      let q = resolve_wallet-Quiet I env req w in
      bind-Fate I env req (resolve_wallet I env req w).0 (after_resolve I env req) w
        (resolve_wallet I env req w).1 q.0 q.1 o after_resolve-Fate
