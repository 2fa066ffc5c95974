-- ===== src/Send/Fate.antt =====
-- The ways in which one call of `/send` can end.
use skr_crypto.Exceptions.{returned}
use skr_crypto.Idempotency.{Store, free, in_flight, committed}
use skr_crypto.Wallets.Pool.{Wallet}
use skr_crypto.Wallets.Signing.{answer}
use skr_crypto.Send.Types.{
  Failure, audit_error, Result, ok, err, Request, SendResponse, Env, World, Exec, continue, clear,
  before, after,
}
use skr_crypto.Send.Handler.{response}
use skr_crypto.Send.Broadcasts.{Funded, payment, fee_limit}
use skr_crypto.Prelude.{
  String, true, false, ◌∷◌, ◌≡◌, refl, ap, sym, ◌∙◌, ◌⊎◌, str_eq, if◌then◌else◌,
}

module _ (I : Store) (env : Env) (req : Request) where
  abbrev pub Same : I.State → I.State → Type 0
  Same s s' = (j : String) → I.phase s' j ≡ I.phase s j

  abbrev pub Stores : String → I.State → I.State → Type 0
  Stores t s s' =
      (j : String)
      → I.phase s' j ≡ (if str_eq req.idempotency_key j then committed t else I.phase s j)

  -- The key is in flight, and every other key is as it was.
  abbrev pub Blocks : I.State → I.State → Type 0
  Blocks s s' =
      (j : String)
      → I.phase s' j ≡ (if str_eq req.idempotency_key j then in_flight else I.phase s j)

  -- The payment of a wallet that both balances cover, on top of the broadcasts before.
  abbrev pub Paid : World I.State → World I.State → Type 0
  Paid w w' =
      (x : Wallet) × (w'.sent ≡ payment I env req x (fee_limit I env req) ∷ w.sent)
      × Funded I env req

  -- Every way in which a request can end, from a state `w`: with a failure that touched nothing; with a
  -- duplicate's txid; with a failure after the payment was broadcast, its key free again; with a
  -- failure of the last audit record, after the payment was broadcast and its txid stored; and with the
  -- txid of the payment, broadcast and stored. Where the database raises there are two more: the key
  -- stays in flight; and the payment was broadcast and its txid stored, though `commit` raised.
  pub data Fate (w : World I.State) (r : Result SendResponse × World I.State) : Type 0 where
    refused : (f : Failure) → r.0 ≡ err f → Same w.store r.1.store → r.1.sent ≡ w.sent → Fate w r
    repeated :
        (x : Wallet) (t : String)
        → r.0 ≡ ok (response I env req x t true)
        → I.phase w.store req.idempotency_key ≡ committed t
        → Same w.store r.1.store
        → r.1.sent ≡ w.sent
        → Fate w r
    unstored :
        (x : Wallet) (f : Failure)
        → r.0 ≡ err f
        → I.phase w.store req.idempotency_key ≡ free
        → Same w.store r.1.store
        → r.1.sent ≡ payment I env req x (fee_limit I env req) ∷ w.sent
        → Funded I env req
        → Fate w r
    unaudited :
        (x : Wallet) (t : String)
        → r.0 ≡ err audit_error
        → I.phase w.store req.idempotency_key ≡ free
        → Stores t w.store r.1.store
        → r.1.sent ≡ payment I env req x (fee_limit I env req) ∷ w.sent
        → Funded I env req
        → env.commit_fault ≡ clear
        → Fate w r
    paid :
        (x : Wallet) (t : String)
        → r.0 ≡ ok (response I env req x t false)
        → I.phase w.store req.idempotency_key ≡ free
        → Stores t w.store r.1.store
        → r.1.sent ≡ payment I env req x (fee_limit I env req) ∷ w.sent
        → Funded I env req
        → env.network ≡ returned (answer true t)
        → env.commit_fault ≡ clear
        → Fate w r
    stuck :
        (f : Failure)
        → r.0 ≡ err f
        → I.phase w.store req.idempotency_key ≡ free
        → Blocks w.store r.1.store
        → ((env.reserve_fault ≡ after) × (r.1.sent ≡ w.sent))
          ⊎ ((env.release_fault ≡ before) × ((r.1.sent ≡ w.sent) ⊎ Paid w r.1))
        → Fate w r
    unconfirmed :
        (f : Failure) (t : String)
        → r.0 ≡ err f
        → I.phase w.store req.idempotency_key ≡ free
        → Stores t w.store r.1.store
        → Paid w r.1
        → env.commit_fault ≡ after
        → Fate w r

  -- A stage before that touched neither the store nor the broadcasts.
  Fate-after :
      (w w₁ : World I.State) (r : Result SendResponse × World I.State)
      → w₁.store ≡ w.store
      → w₁.sent ≡ w.sent
      → Fate w₁ r
      → Fate w r
  Fate-after w w₁ r p q (refused f e m n) = refused f e (λ j. m j ∙ ap (λ z. I.phase z j) p) (n ∙ q)
  Fate-after w w₁ r p q (repeated x t e h m n) =
      repeated x t e (ap (λ z. I.phase z req.idempotency_key) (sym p) ∙ h)
        (λ j. m j ∙ ap (λ z. I.phase z j) p) (n ∙ q)
  Fate-after w w₁ r p q (unstored x f e h m n fd) =
      unstored x f e (ap (λ z. I.phase z req.idempotency_key) (sym p) ∙ h)
        (λ j. m j ∙ ap (λ z. I.phase z j) p)
        (n ∙ ap (λ o. payment I env req x (fee_limit I env req) ∷ o) q) fd
  Fate-after w w₁ r p q (unaudited x t e h m n fd c) =
      unaudited x t e (ap (λ z. I.phase z req.idempotency_key) (sym p) ∙ h) (λ j. rw (← p) (m j))
        (n ∙ ap (λ o. payment I env req x (fee_limit I env req) ∷ o) q) fd c
  Fate-after w w₁ r p q (paid x t e h m n fd a c) =
      paid x t e (ap (λ z. I.phase z req.idempotency_key) (sym p) ∙ h) (λ j. rw (← p) (m j))
        (n ∙ ap (λ o. payment I env req x (fee_limit I env req) ∷ o) q) fd a c
  Fate-after w w₁ r p q (stuck f e h m n) =
      stuck f e (ap (λ z. I.phase z req.idempotency_key) (sym p) ∙ h) (λ j. rw (← p) (m j))
        (rw (← q) n)
  Fate-after w w₁ r p q (unconfirmed f t e h m n c) =
      unconfirmed f t e (ap (λ z. I.phase z req.idempotency_key) (sym p) ∙ h) (λ j. rw (← p) (m j))
        (rw (← q) n) c

  pub bind-Fate :
      {A : Type 0} (r : Result A) (f : A → Exec I.State SendResponse) (w w₁ : World I.State)
      → w₁.store ≡ w.store
      → w₁.sent ≡ w.sent
      → I.IsOpen w.store
      → ((a : A) (v : World I.State) → I.IsOpen v.store → Fate v (f a v))
      → Fate w (continue r f w₁)
  bind-Fate (ok a) f w w₁ p q o h = Fate-after w w₁ _ p q (h a w₁ (rw p o))
  bind-Fate (err e) f w w₁ p q o h = refused e refl (λ j. ap (λ z. I.phase z j) p) q
