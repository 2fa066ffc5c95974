-- ===== src/Send/Retry.antt =====
-- Several calls of `/send` with the same idempotency key, over any idempotency store.
use skr_crypto.Idempotency.{Store, free, in_flight, committed}
use skr_crypto.Send.Types.{
  Failure, Result, ok, err, Request, duplicate, SendResponse, before, after, Env, World,
}
use skr_crypto.Send.Handler.{response, send}
use skr_crypto.Send.Fate.{Fate, refused, repeated, unstored, unaudited, paid, stuck, unconfirmed}
use skr_crypto.Send.Safety.{send-Fate}
use skr_crypto.Send.Open.{send-IsOpen}
use skr_crypto.Prelude.{String, ◌≡◌, ◌≢◌, ◌∙◌, ◌⊎◌, inl, inr, arith, eq_iff, eq_refl}

module _ (I : Store) where
  -- What a call answers for a committed key.
  abbrev pub Repeats : String → World I.State → Result SendResponse × World I.State → Type 0
  Repeats t w r =
      (r.1.sent ≡ w.sent)
      × ((a : SendResponse) → r.0 ≡ ok a → (a.txid ≡ t) × (a.status ≡ duplicate))

  pub Fate-committed :
      (env : Env) (req : Request) (t : String) (w : World I.State)
      (r : Result SendResponse × World I.State)
      → I.phase w.store req.idempotency_key ≡ committed t
      → Fate I env req w r
      → Repeats t w r
  unfolding response
  Fate-committed env req t w r h (refused f e m n) = (n, λ a g. ground arith)
  Fate-committed env req t w r h (repeated x u e p m n) = (n, λ a g. ground arith)
  Fate-committed env req t w r h (unstored x f e p m n fd) = ground arith
  Fate-committed env req t w r h (unaudited x u e p s n fd c) = ground arith
  Fate-committed env req t w r h (stuck f e p m n) = ground arith
  Fate-committed env req t w r h (unconfirmed f u e p s n c) = ground arith
  Fate-committed env req t w r h (paid x u e p s n fd a c) = ground arith

  -- After an answer, the key is committed with the answer's txid.
  pub Fate-answered :
      (env : Env) (req : Request) (a : SendResponse) (w : World I.State)
      (r : Result SendResponse × World I.State)
      → r.0 ≡ ok a
      → Fate I env req w r
      → I.phase r.1.store req.idempotency_key ≡ committed a.txid
  unfolding response
  Fate-answered env req a w r g (refused f e m n) = ground arith
  Fate-answered env req a w r g (repeated x u e p m n) = ground (arith, m req.idempotency_key)
  Fate-answered env req a w r g (unstored x f e p m n fd) = ground arith
  Fate-answered env req a w r g (unaudited x u e p s n fd c) = ground arith
  Fate-answered env req a w r g (stuck f e p m n) = ground arith
  Fate-answered env req a w r g (unconfirmed f u e p s n c) = ground arith
  Fate-answered env req a w r g (paid x u e p s n fd b c) =
      ground (arith, s req.idempotency_key, eq_refl req.idempotency_key)

  -- A request that was answered can be sent again: the second call broadcasts nothing, and where it
  -- answers, it answers with the txid of the first and the status `duplicate`.
  pub retried_after_answer :
      (env env' : Env) (req req' : Request) (a : SendResponse) (w : World I.State)
      → I.IsOpen w.store
      → (send I env req w).0 ≡ ok a
      → req'.idempotency_key ≡ req.idempotency_key
      → let w₁ = (send I env req w).1 in
        let (r, w₂) = send I env' req' w₁ in
        (w₂.sent ≡ w₁.sent)
        × ((b : SendResponse) → r ≡ ok b → (b.txid ≡ a.txid) × (b.status ≡ duplicate))
  retried_after_answer env env' req req' a w o g e =
      let w₁ = (send I env req w).1 in
      Fate-committed env' req' a.txid w₁ (send I env' req' w₁)
        (rw e (Fate-answered env req a w (send I env req w) g (send-Fate I env req w o)))
        (send-Fate I env' req' w₁ (send-IsOpen I env req w o))

  -- What a call that has broadcast leaves behind.
  abbrev Marks : Request → World I.State → Result SendResponse × World I.State → Type 0
  Marks req w r =
      (r.1.sent ≡ w.sent)
      ⊎ ((t : String) × (I.phase r.1.store req.idempotency_key ≡ committed t))
      ⊎ ((f : Failure) × (r.0 ≡ err f) × (I.phase r.1.store req.idempotency_key ≡ free))
      ⊎ (I.phase r.1.store req.idempotency_key ≡ in_flight)

  Fate-Marks :
      (env : Env) (req : Request) (w : World I.State) (r : Result SendResponse × World I.State)
      → Fate I env req w r
      → Marks req w r
  Fate-Marks env req w r (refused f e m n) = inl n
  Fate-Marks env req w r (repeated x t e p m n) = inl n
  Fate-Marks env req w r (unstored x f e p m n fd) =
      inr (inr (inl (f, e, m req.idempotency_key ∙ p)))
  Fate-Marks env req w r (unaudited x t e p s n fd c) =
      inr (inl (t, ground (arith, s req.idempotency_key, eq_refl req.idempotency_key)))
  Fate-Marks env req w r (stuck f e p m n) =
      inr (inr (inr (ground (arith, m req.idempotency_key, eq_refl req.idempotency_key))))
  Fate-Marks env req w r (unconfirmed f t e p s n c) =
      inr (inl (t, ground (arith, s req.idempotency_key, eq_refl req.idempotency_key)))
  Fate-Marks env req w r (paid x t e p s n fd b c) =
      inr (inl (t, ground (arith, s req.idempotency_key, eq_refl req.idempotency_key)))

  -- A call with a key in flight broadcasts nothing.
  Fate-busy :
      (env : Env) (req : Request) (w : World I.State) (r : Result SendResponse × World I.State)
      → I.phase w.store req.idempotency_key ≡ in_flight
      → Fate I env req w r
      → r.1.sent ≡ w.sent
  Fate-busy env req w r h (refused f e m n) = n
  Fate-busy env req w r h (repeated x t e p m n) = n
  Fate-busy env req w r h (unstored x f e p m n fd) = ground arith
  Fate-busy env req w r h (unaudited x t e p s n fd c) = ground arith
  Fate-busy env req w r h (paid x t e p s n fd a c) = ground arith
  Fate-busy env req w r h (stuck f e p m n) = ground arith
  Fate-busy env req w r h (unconfirmed f t e p s n c) = ground arith

  -- Two calls in a row with one key broadcast twice only where the first ended with an error and left
  -- the key free.
  paid_twice :
      (env env' : Env) (req req' : Request) (w : World I.State)
      → I.IsOpen w.store
      → req'.idempotency_key ≡ req.idempotency_key
      → let (r, w₁) = send I env req w in
        w₁.sent ≢ w.sent
        → (send I env' req' w₁).1.sent ≢ w₁.sent
        → (f : Failure) × (r ≡ err f) × (I.phase w₁.store req.idempotency_key ≡ free)
  paid_twice env env' req req' w o e s s' =
      let w₁ = (send I env req w).1 in
      let fate' = send-Fate I env' req' w₁ (send-IsOpen I env req w o) in
      elim (Fate-Marks env req w (send I env req w) (send-Fate I env req w o)) [
        | inl n ↦ absurd (s n)
        | inr (inl (t, p)) ↦
            absurd (s' (Fate-committed env' req' t w₁ (send I env' req' w₁) (rw e p) fate').0)
        | inr (inr (inl m)) ↦ m
        | inr (inr (inr p)) ↦
            absurd (s' (Fate-busy env' req' w₁ (send I env' req' w₁) (rw e p) fate'))
      ]

  Fate-lost :
      (env : Env) (req : Request) (w : World I.State) (r : Result SendResponse × World I.State)
      → env.commit_fault ≡ before
      → env.release_fault ≢ before
      → r.1.sent ≢ w.sent
      → Fate I env req w r
      → (f : Failure) × (r.0 ≡ err f) × (I.phase r.1.store req.idempotency_key ≡ free)
  Fate-lost env req w r c b s (refused f e m n) = absurd (s n)
  Fate-lost env req w r c b s (repeated x t e p m n) = absurd (s n)
  Fate-lost env req w r c b s (unstored x f e p m n fd) = (f, e, m req.idempotency_key ∙ p)
  Fate-lost env req w r c b s (unaudited x t e p q n fd d) = ground arith
  Fate-lost env req w r c b s (paid x t e p q n fd a d) = ground arith
  Fate-lost env req w r c b s (stuck f e p m (inl (a, n))) = absurd (s n)
  Fate-lost env req w r c b s (stuck f e p m (inr (a, n))) = absurd (b a)
  Fate-lost env req w r c b s (unconfirmed f t e p q n d) = ground arith

  -- Where the UPDATE of `commit` raises after the payment was broadcast, and the DELETE of the release
  -- that follows does not, the call ends with an error and the key is free again: the payment is not
  -- stored, and a retry is a new request.
  pub lost_payment :
      (env : Env) (req : Request) (w : World I.State)
      → I.IsOpen w.store
      → env.commit_fault ≡ before
      → env.release_fault ≢ before
      → let (r, w₁) = send I env req w in
        w₁.sent ≢ w.sent
        → (f : Failure) × (r ≡ err f) × (I.phase w₁.store req.idempotency_key ≡ free)
  lost_payment env req w o c b s =
      Fate-lost env req w (send I env req w) c b s (send-Fate I env req w o)

  -- No key that was not in flight before the call is in flight after it.
  abbrev NoLeak : Request → World I.State → World I.State → Type 0
  NoLeak req w w' =
      (j : String)
      → (I.phase w.store j ≢ in_flight → I.phase w'.store j ≢ in_flight)
        × (req.idempotency_key ≢ j → I.phase w'.store j ≡ I.phase w.store j)

  Fate-NoLeak :
      (env : Env) (req : Request) (w : World I.State) (r : Result SendResponse × World I.State)
      → env.reserve_fault ≢ after
      → env.release_fault ≢ before
      → Fate I env req w r
      → NoLeak req w r.1
  Fate-NoLeak env req w r a b (refused f e m n) j = (λ h. rw (m j) h, λ _. m j)
  Fate-NoLeak env req w r a b (repeated x t e p m n) j = (λ h. rw (m j) h, λ _. m j)
  Fate-NoLeak env req w r a b (unstored x f e p m n fd) j = (λ h. rw (m j) h, λ _. m j)
  Fate-NoLeak env req w r a b (unaudited x t e p s n fd c) j =
      (λ h g. ground (arith, s j), λ h. ground (arith, s j, eq_iff req.idempotency_key j))
  Fate-NoLeak env req w r a b (paid x t e p s n fd d c) j =
      (λ h g. ground (arith, s j), λ h. ground (arith, s j, eq_iff req.idempotency_key j))
  Fate-NoLeak env req w r a b (stuck f e p m (inl (c, n))) j = absurd (a c)
  Fate-NoLeak env req w r a b (stuck f e p m (inr (c, n))) j = absurd (b c)
  Fate-NoLeak env req w r a b (unconfirmed f t e p s n c) j =
      (λ h g. ground (arith, s j), λ h. ground (arith, s j, eq_iff req.idempotency_key j))

  -- Where the database raises neither when a reservation is committed nor in the DELETE of a release, a
  -- call leaves no reservation behind: a key that was not in flight before is not in
  -- flight after, and the other keys are as they were.
  send-keys :
      (env : Env) (req : Request) (w : World I.State)
      → I.IsOpen w.store
      → env.reserve_fault ≢ after
      → env.release_fault ≢ before
      → (j : String)
      → let w₁ = (send I env req w).1 in
        (I.phase w.store j ≢ in_flight → I.phase w₁.store j ≢ in_flight)
        × (req.idempotency_key ≢ j → I.phase w₁.store j ≡ I.phase w.store j)
  send-keys env req w o a b j =
      Fate-NoLeak env req w (send I env req w) a b (send-Fate I env req w o) j
