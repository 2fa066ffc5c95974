-- ===== src/Send/Serve.antt =====
-- Any number of calls of `/send`, one after the other, over any idempotency store.
use skr_crypto.Idempotency.{Store, committed}
use skr_crypto.Send.Types.{
  Result, ok, err, Request, Status, broadcast, duplicate, SendResponse, Env, World,
}
use skr_crypto.Send.Handler.{response, send}
use skr_crypto.Send.Fate.{Fate, refused, repeated, unstored, unaudited, paid, stuck, unconfirmed}
use skr_crypto.Send.Safety.{send-Fate}
use skr_crypto.Send.Open.{send-IsOpen}
use skr_crypto.Prelude.{
  ℕ, ◌+◌, ◌≤◌, String, Bool, true, false, ◌&&◌, List, [], ◌∷◌, ◌≡◌, ◌∙◌, ◌⊎◌, inl, inr, refl, arith,
  str_eq, eq_iff, eq_refl, if◌then◌else◌, Bool-cases,
}

is_broadcast : Status → Bool
is_broadcast broadcast = true
is_broadcast duplicate = false

-- 1 for an answer that says that this call broadcast the payment of the key.
broadcast_of : String → Result SendResponse → ℕ
unfolding is_broadcast
broadcast_of k (ok a) = if str_eq k a.idempotency_key && is_broadcast a.status then 1 else 0
broadcast_of k (err f) = 0

unfoldable pub broadcasts : String → List (Result SendResponse) → ℕ
unfolding broadcast_of
broadcasts k [] = 0
broadcasts k (r ∷ rs) = broadcast_of k r + broadcasts k rs

-- The answers for the key `k` have the txid `t`.
abbrev Agrees : String → String → Result SendResponse → Type 0
Agrees k t r = (a : SendResponse) → r ≡ ok a → a.idempotency_key ≡ k → a.txid ≡ t

abbrev pub AllAgree : String → String → List (Result SendResponse) → Type 0
AllAgree k t [] = Unit {0}
AllAgree k t (r ∷ rs) = Agrees k t r × AllAgree k t rs

module _ (I : Store) where
  -- Calls one after the other, as `_send_lock` orders them.
  unfoldable pub serve :
      List (Env × Request) → World I.State → List (Result SendResponse) × World I.State
  serve [] w = ([], w)
  serve ((env, req) ∷ calls) w =
      let (r, w₁) = send I env req w in let (rs, w₂) = serve calls w₁ in (r ∷ rs, w₂)

  -- A call keeps a committed key, and its answers for other keys say nothing of this one.
  Fate-keeps :
      (env : Env) (req : Request) (k t : String) (w : World I.State)
      (r : Result SendResponse × World I.State)
      → I.phase w.store k ≡ committed t
      → Fate I env req w r
      → (I.phase r.1.store k ≡ committed t) × (broadcast_of k r.0 ≡ 0)
  unfolding response broadcast_of is_broadcast
  Fate-keeps env req k t w r h (refused f e m n) = (m k ∙ h, rw e refl)
  Fate-keeps env req k t w r h (repeated x u e p m n) = (m k ∙ h, ground arith)
  Fate-keeps env req k t w r h (unstored x f e p m n fd) = (m k ∙ h, rw e refl)
  Fate-keeps env req k t w r h (unaudited x u e p s n fd c) =
      (ground (arith, s k, eq_iff req.idempotency_key k), rw e refl)
  Fate-keeps env req k t w r h (paid x u e p s n fd a c) = (
    ground (arith, s k, eq_iff req.idempotency_key k),
    ground (arith, eq_iff k req.idempotency_key),
  )
  Fate-keeps env req k t w r h (stuck f e p m n) =
      (ground (arith, m k, eq_iff req.idempotency_key k), rw e refl)
  Fate-keeps env req k t w r h (unconfirmed f u e p s n c) =
      (ground (arith, s k, eq_iff req.idempotency_key k), rw e refl)

  Fate-broadcast :
      (env : Env) (req : Request) (k : String) (w : World I.State)
      (r : Result SendResponse × World I.State)
      → Fate I env req w r
      → (broadcast_of k r.0 ≡ 0)
        ⊎ ((broadcast_of k r.0 ≡ 1) × ((t : String) × (I.phase r.1.store k ≡ committed t)))
  unfolding response broadcast_of is_broadcast
  Fate-broadcast env req k w r (refused f e m n) = inl (rw e refl)
  Fate-broadcast env req k w r (repeated x u e p m n) = inl (ground arith)
  Fate-broadcast env req k w r (unstored x f e p m n fd) = inl (rw e refl)
  Fate-broadcast env req k w r (unaudited x u e p s n fd c) = inl (rw e refl)
  Fate-broadcast env req k w r (stuck f e p m n) = inl (rw e refl)
  Fate-broadcast env req k w r (unconfirmed f u e p s n c) = inl (rw e refl)
  Fate-broadcast env req k w r (paid x u e p s n fd a c) =
      elim (Bool-cases (str_eq k req.idempotency_key)) [
        | inl g ↦
            inr (ground arith, (u, ground (arith, s k, eq_iff k req.idempotency_key, eq_refl k)))
        | inr g ↦ inl (ground arith)
      ]

  serve-none :
      (k t : String) (calls : List (Env × Request)) (w : World I.State)
      → I.IsOpen w.store
      → I.phase w.store k ≡ committed t
      → broadcasts k (serve calls w).0 ≡ 0
  unfolding broadcasts serve
  serve-none k t [] w o h = refl
  serve-none k t ((env, req) ∷ calls) w o h =
      let w₁ = (send I env req w).1 in
      let (h', e) = Fate-keeps env req k t w (send I env req w) h (send-Fate I env req w o) in
      let rest = serve-none k t calls w₁ (send-IsOpen I env req w o) h' in omega (arith, e, rest)

  -- Among the answers to any number of calls, at most one says for a key that its payment was broadcast
  -- by this call.
  pub serve-one_broadcast :
      (k : String) (calls : List (Env × Request)) (w : World I.State)
      → I.IsOpen w.store
      → broadcasts k (serve calls w).0 ≤ 1
  unfolding broadcasts serve
  serve-one_broadcast k [] w o = omega arith
  serve-one_broadcast k ((env, req) ∷ calls) w o =
      let w₁ = (send I env req w).1 in
      let o₁ = send-IsOpen I env req w o in
      elim (Fate-broadcast env req k w (send I env req w) (send-Fate I env req w o)) [
        | inl e ↦ omega (arith, e, serve-one_broadcast k calls w₁ o₁)
        | inr (e, (t, h)) ↦ omega (arith, e, serve-none k t calls w₁ o₁ h)
      ]

  Fate-Agrees :
      (env : Env) (req : Request) (k : String) (w : World I.State)
      (r : Result SendResponse × World I.State)
      → Fate I env req w r
      → ((t : String) → Agrees k t r.0)
        ⊎ ((t : String) × Agrees k t r.0 × (I.phase r.1.store k ≡ committed t))
  unfolding response
  Fate-Agrees env req k w r (refused f e m n) = inl (λ t a g p. ground arith)
  Fate-Agrees env req k w r (unstored x f e p m n fd) = inl (λ t a g p. ground arith)
  Fate-Agrees env req k w r (unaudited x u e p s n fd c) = inl (λ t a g p. ground arith)
  Fate-Agrees env req k w r (stuck f e p m n) = inl (λ t a g q. ground arith)
  Fate-Agrees env req k w r (unconfirmed f u e p s n c) = inl (λ t a g q. ground arith)
  Fate-Agrees env req k w r (repeated x u e p m n) =
      elim (Bool-cases (str_eq req.idempotency_key k)) [
        | inl g ↦ inr (u, λ a h q. ground arith, ground (arith, m k, eq_iff req.idempotency_key k))
        | inr g ↦ inl (λ t a h q. ground (arith, eq_iff req.idempotency_key k))
      ]
  Fate-Agrees env req k w r (paid x u e p s n fd b c) =
      elim (Bool-cases (str_eq req.idempotency_key k)) [
        | inl g ↦ inr (u, λ a h q. ground arith, ground (arith, s k))
        | inr g ↦ inl (λ t a h q. ground (arith, eq_iff req.idempotency_key k))
      ]

  -- A committed key's answers have the stored txid.
  Fate-stored :
      (env : Env) (req : Request) (k t : String) (w : World I.State)
      (r : Result SendResponse × World I.State)
      → I.phase w.store k ≡ committed t
      → Fate I env req w r
      → Agrees k t r.0
  unfolding response
  Fate-stored env req k t w r h (refused f e m n) a g p = ground arith
  Fate-stored env req k t w r h (repeated x u e q m n) a g p = ground arith
  Fate-stored env req k t w r h (unstored x f e q m n fd) a g p = ground arith
  Fate-stored env req k t w r h (unaudited x u e q s n fd c) a g p = ground arith
  Fate-stored env req k t w r h (paid x u e q s n fd b c) a g p = ground arith
  Fate-stored env req k t w r h (stuck f e q m n) a g p = ground arith
  Fate-stored env req k t w r h (unconfirmed f u e q s n c) a g p = ground arith

  serve-stored :
      (k t : String) (calls : List (Env × Request)) (w : World I.State)
      → I.IsOpen w.store
      → I.phase w.store k ≡ committed t
      → AllAgree k t (serve calls w).0
  unfolding serve
  serve-stored k t [] w o h = tt
  serve-stored k t ((env, req) ∷ calls) w o h =
      let fate = send-Fate I env req w o in
      (
        Fate-stored env req k t w (send I env req w) h fate,
        serve-stored k t calls (send I env req w).1 (send-IsOpen I env req w o)
            (Fate-keeps env req k t w (send I env req w) h fate).0,
      )

  -- All answers to any number of calls with one key have one txid.
  pub serve-one_txid :
      (k : String) (calls : List (Env × Request)) (w : World I.State)
      → I.IsOpen w.store
      → (t : String) × AllAgree k t (serve calls w).0
  unfolding serve
  serve-one_txid k [] w o = ("", tt)
  serve-one_txid k ((env, req) ∷ calls) w o =
      let w₁ = (send I env req w).1 in
      let o₁ = send-IsOpen I env req w o in
      elim (Fate-Agrees env req k w (send I env req w) (send-Fate I env req w o)) [
        | inl e ↦ (let (t, rest) = serve-one_txid k calls w₁ o₁ in (t, (e t, rest)))
        | inr (t, e, h) ↦ (t, (e, serve-stored k t calls w₁ o₁ h))
      ]
