-- ===== src/Http/Refusals.antt =====
-- Which statuses `/send` can answer with after a broadcast.
use mathlib.Core.Path.{subst}
use skr_crypto.Http.{
  failure_status, result_status, State, Config, HttpRequest, is_exempt, as_request, run_handler,
  with_body, with_access, endpoint, limited, post_send,
}
use skr_crypto.Idempotency.{Store}
use skr_crypto.Audit
use skr_crypto.RateLimit.Buckets.{Table}
use skr_crypto.Models.{SendRequest, accepts}
use skr_crypto.Send.Types.{Result, ok, err, Request, Env, World, Exec, ◌>>◌, pure, continue}
use skr_crypto.Send.Effects.{
  resolve_wallet-Quiet, validate-Quiet, risk_preflight-Quiet, checked-Quiet,
}
use skr_crypto.Send.Handler.{
  resolve_wallet, validate, record_event, risk_preflight, reserve, checked, transfer, commit,
  attempt, or_release, guarded, proceed, send,
}
use skr_crypto.Send.Broadcasts.{pay_with}
use skr_crypto.Send.Stages.{after_guarded, after_risk, after_validate, after_resolve}
use skr_crypto.Tokens.Access.{
  Access, caller, missing_key, invalid_key, revoked_key, failed, forbidden,
}
use skr_crypto.Wallets.Pool.{Wallet}
use skr_crypto.Wallets.Signing.{Transfer}
use skr_crypto.Prelude.{
  ℕ, String, Bool, true, false, Option, none, some, List, ◌≤◌, ◌<◌, ◌≡◌, ◌⊎◌, inl, refl, arith,
  if_either,
}

-- A failure is a server error.
abbrev Loud : {S A : Type 0} → Result A × World S → Type 0
Loud r = elim r.0 [ ok a ↦ Unit {0} | err f ↦ 500 ≤ failure_status f ]

-- A failure is a server error, or nothing was broadcast.
abbrev Honest : {S A : Type 0} → List Transfer → Result A × World S → Type 0
Honest old r = elim r.0 [ ok a ↦ Unit {0} | err f ↦ (r.1.sent ≡ old) ⊎ (500 ≤ failure_status f) ]

module _ (I : Store) (env : Env) (req : Request) where
  bind-Honest :
      {A B : Type 0} (r : Result A) (f : A → Exec I.State B) (old : List Transfer)
      (w : World I.State)
      → w.sent ≡ old
      → ((a : A) (v : World I.State) → Honest v.sent (f a v))
      → Honest old (continue r f w)
  bind-Honest (ok a) f old w e h = subst (λ o. Honest o (f a w)) e (h a w)
  bind-Honest (err g) f old w e h = inl e

  transfer-Loud : (x : Wallet) (fee : ℕ) (w : World I.State) → Loud (transfer I env req x fee w)
  unfolding transfer record_event failure_status
  transfer-Loud x fee w = ground arith

  commit-Loud : (t : String) (w : World I.State) → Loud ((commit I env req t >> pure t) w)
  unfolding commit failure_status
  commit-Loud t w = ground arith

  or_release-Honest :
      (r : Result String) (old : List Transfer) (w : World I.State)
      → Honest old (r, w)
      → Honest old (or_release I env req r w)
  unfolding or_release failure_status
  or_release-Honest (ok t) old w h = tt
  or_release-Honest (err f) old w h = ground arith

  record_event-Loud :
      (x : Wallet) (event : Audit.Event) (t result : String) (w : World I.State)
      → Loud (record_event I env req x event t result w)
  unfolding record_event failure_status
  record_event-Loud x event t result w = ground arith

  reserve-sent : (w : World I.State) → (reserve I env req w).1.sent ≡ w.sent
  unfolding reserve
  reserve-sent w = ground arith

  pay_with-Loud : (x : Wallet) (fee : ℕ) (w : World I.State) → Loud (pay_with I env req x fee w)
  pay_with-Loud x fee w = let p = transfer I env req x fee w in go p.0 p.1 (transfer-Loud x fee w)
    where
      go :
          (r : Result String) (v : World I.State)
          → Loud (r, v)
          → Loud (continue r (λ t. commit I env req t >> pure t) v)
      go (ok t) v h = commit-Loud t v
      go (err f) v h = h

  Loud-Honest :
      {A : Type 0} (old : List Transfer) (r : Result A × World I.State) → Loud r → Honest old r
  Loud-Honest old r h = ground arith

  guarded-Honest : (x : Wallet) (w : World I.State) → Honest w.sent (guarded I env req x w)
  unfolding guarded attempt
  guarded-Honest x w =
      let c = checked I env req x w in
      let a = attempt I env req x w in
      or_release-Honest a.0 w.sent a.1 (
        bind-Honest c.0 (pay_with I env req x) w.sent c.1 (checked-Quiet I env req x w).1
          (λ fee v. Loud-Honest v.sent (pay_with I env req x fee v) (pay_with-Loud x fee v)))

  then-Honest :
      {A B : Type 0} (r : Result A) (f : A → Exec I.State B) (old : List Transfer)
      (w : World I.State)
      → Honest old (r, w)
      → ((a : A) (v : World I.State) → Loud (f a v))
      → Honest old (continue r f w)
  then-Honest (ok a) f old w h k = Loud-Honest old (f a w) (k a w)
  then-Honest (err g) f old w h k = h

  after_guarded-Loud :
      (x : Wallet) (t : String) (w : World I.State) → Loud (after_guarded I env req x t w)
  unfolding after_guarded record_event failure_status
  after_guarded-Loud x t w = ground arith

  proceed-Honest :
      (x : Wallet) (found : Option String) (w : World I.State)
      → Honest w.sent (proceed I env req x found w)
  unfolding proceed record_event failure_status after_guarded
  proceed-Honest x (some t) w = ground arith
  proceed-Honest x none w =
      let g = guarded I env req x w in
      then-Honest g.0 (after_guarded I env req x) w.sent g.1 (guarded-Honest x w)
        (after_guarded-Loud x)

  after_risk-Honest : (x : Wallet) (w : World I.State) → Honest w.sent (after_risk I env req x w)
  unfolding after_risk
  after_risk-Honest x w =
      let r = reserve I env req w in
      bind-Honest r.0 (proceed I env req x) w.sent r.1 (reserve-sent w) (proceed-Honest x)

  after_validate-Honest :
      (x : Wallet) (w : World I.State) → Honest w.sent (after_validate I env req x w)
  unfolding after_validate
  after_validate-Honest x w =
      let r = risk_preflight I env req x w in
      bind-Honest r.0 (λ _. after_risk I env req x) w.sent r.1
        (risk_preflight-Quiet I env req x w).1 (λ _. after_risk-Honest x)

  after_resolve-Honest :
      (x : Wallet) (w : World I.State) → Honest w.sent (after_resolve I env req x w)
  unfolding after_resolve
  after_resolve-Honest x w =
      let r = validate I env req w in
      bind-Honest r.0 (λ _. after_validate I env req x) w.sent r.1 (validate-Quiet I env req w).1
        (λ _. after_validate-Honest x)

  send-Honest : (w : World I.State) → Honest w.sent (send I env req w)
  unfolding send after_resolve after_validate after_risk
  send-Honest w =
      let r = resolve_wallet I env req w in
      bind-Honest r.0 (after_resolve I env req) w.sent r.1 (resolve_wallet-Quiet I env req w).1
        after_resolve-Honest

  -- A status between 201 and 499 of the handler, whatever it found.
  pub send-refused :
      (w : World I.State)
      → 200 < result_status (send I env req w).0
      → result_status (send I env req w).0 < 500
      → (send I env req w).1.sent ≡ w.sent
  unfolding result_status
  send-refused w h k = ground (arith, send-Honest w)

module _ (I : Store) (cfg : Config) (env : Env) where
  abbrev Quiet : List Transfer → ℕ × State I.State → Type 0
  Quiet old p = 200 < p.0 → p.0 < 500 → p.1.world.sent ≡ old

  run_handler-Quiet :
      (r : SendRequest) (s : State I.State) → Quiet s.world.sent (run_handler I cfg env r s)
  unfolding run_handler
  run_handler-Quiet r s = send-refused I env (as_request r) s.world

  with_body-Quiet :
      (body : Option SendRequest) (s : State I.State)
      → Quiet s.world.sent (with_body I cfg env body s)
  unfolding with_body
  with_body-Quiet none s h k = refl
  with_body-Quiet (some r) s h k =
      if_either (Quiet s.world.sent) (accepts r) (run_handler-Quiet r s) (λ _ _. refl) h k

  with_access-Quiet :
      (a : Access) (q : HttpRequest) (s : State I.State)
      → Quiet s.world.sent (with_access I cfg env a q s)
  unfolding with_access
  with_access-Quiet (caller i) q s h k = with_body-Quiet q.body s h k
  with_access-Quiet missing_key q s h k = refl
  with_access-Quiet invalid_key q s h k = refl
  with_access-Quiet revoked_key q s h k = refl
  with_access-Quiet (forbidden required has) q s h k = refl
  with_access-Quiet failed q s h k = refl

  endpoint-Quiet :
      (q : HttpRequest) (s : State I.State) → Quiet s.world.sent (endpoint I cfg env q s)
  unfolding endpoint
  endpoint-Quiet q s = with_access-Quiet _ q _

  limited-Quiet :
      (l : Bool × Option Table) (q : HttpRequest) (s : State I.State)
      → Quiet s.world.sent (limited I cfg env l q s)
  unfolding limited
  limited-Quiet (true, table) q s h k = endpoint-Quiet q (record s { table = table }) h k
  limited-Quiet (false, table) q s h k = refl

  post_send-Quiet :
      (q : HttpRequest) (s : State I.State) → Quiet s.world.sent (post_send I cfg env q s)
  unfolding post_send
  post_send-Quiet q s =
      if_either (Quiet s.world.sent) (is_exempt q.path) (endpoint-Quiet q s) (limited-Quiet _ q s)

  -- A request to `/send` that is answered with a status of 4xx, by the rate limiter, the token check,
  -- the validation of the body or the handler, has broadcast nothing.
  pub post_send-refused :
      (q : HttpRequest) (s : State I.State)
      → let (status, t) = post_send I cfg env q s in
        400 ≤ status → status < 500 → t.world.sent ≡ s.world.sent
  post_send-refused q s h k = post_send-Quiet q s (omega (arith, h)) k
