-- ===== src/Http/Guards.antt =====
-- What a request to `/send` passes before anything is broadcast.
use skr_crypto.Http.{
  State, Config, HttpRequest, is_exempt, check_ip, with_body, with_access, endpoint, limited,
  post_send,
}
use skr_crypto.Http.Client.{client_address}
use skr_crypto.Idempotency.{Store}
use skr_crypto.Models.{SendRequest, accepts}
use skr_crypto.RateLimit.Buckets.{Table}
use skr_crypto.Send.Types.{Env}
use skr_crypto.Tokens.Access.{
  Access, caller, missing_key, invalid_key, revoked_key, failed, forbidden, verify_with_scope,
}
use skr_crypto.Prelude.{
  ℕ, String, Bool, true, false, Option, none, some, ◌≡◌, ◌≢◌, inl, inr, refl, Bool-cases,
}

module _ (I : Store) (cfg : Config) (env : Env) where
  abbrev Sends : State I.State → ℕ × State I.State → Type 0
  Sends s p = p.1.world.sent ≢ s.world.sent

  abbrev Bodied : HttpRequest → Type 0
  Bodied q = (r : SendRequest) × (q.body ≡ some r) × (accepts r ≡ true)

  with_body-Bodied :
      (body : Option SendRequest) (s : State I.State)
      → Sends s (with_body I cfg env body s)
      → (r : SendRequest) × (body ≡ some r) × (accepts r ≡ true)
  unfolding with_body
  with_body-Bodied none s h = absurd (h refl)
  with_body-Bodied (some r) s h = elim (Bool-cases (accepts r)) [
    | inl good ↦ (r, refl, good)
    | inr bad ↦ absurd (h (rw bad refl))
  ]

  with_access-Bodied :
      (a : Access) (q : HttpRequest) (s : State I.State)
      → Sends s (with_access I cfg env a q s)
      → ((i : String) × (a ≡ caller i)) × Bodied q
  unfolding with_access
  with_access-Bodied (caller i) q s h = ((i, refl), with_body-Bodied q.body s h)
  with_access-Bodied missing_key q s h = absurd (h refl)
  with_access-Bodied invalid_key q s h = absurd (h refl)
  with_access-Bodied revoked_key q s h = absurd (h refl)
  with_access-Bodied (forbidden required has) q s h = absurd (h refl)
  with_access-Bodied failed q s h = absurd (h refl)

  abbrev Authorised : HttpRequest → State I.State → Type 0
  Authorised q s =
      (i : String) × ((verify_with_scope cfg.hash cfg.auth q.api_key "send" env.now s.tokens).0
        ≡ caller i)

  endpoint-Authorised :
      (q : HttpRequest) (s : State I.State)
      → Sends s (endpoint I cfg env q s)
      → Authorised q s × Bodied q
  unfolding endpoint
  endpoint-Authorised q s h = with_access-Bodied _ q _ h

  limited-Authorised :
      (l : Bool × Option Table) (q : HttpRequest) (s : State I.State)
      → Sends s (limited I cfg env l q s)
      → (l.0 ≡ true) × Authorised q s × Bodied q
  unfolding limited
  limited-Authorised (true, table) q s h =
      let e = endpoint-Authorised q (record s { table = table }) h in (refl, e.0, e.1)
  limited-Authorised (false, table) q s h = absurd (h refl)

  -- A request to `/send` that broadcasts anything has passed the rate limiter for its client's address,
  -- has a key that is accepted for the scope "send", and has a body that the request model accepts.
  pub post_send-guarded :
      (q : HttpRequest) (s : State I.State)
      → q.path ≡ "/api/v1/send"
      → (post_send I cfg env q s).1.world.sent ≢ s.world.sent
      → ((check_ip cfg.one cfg.ip_params env.now
            (client_address cfg.trusted_proxies q.peer)
            s.table).0
          ≡ true)
        × ((i : String) × ((verify_with_scope cfg.hash cfg.auth q.api_key "send" env.now s.tokens).0
              ≡ caller i))
        × ((r : SendRequest) × (q.body ≡ some r) × (accepts r ≡ true))
  unfolding post_send is_exempt
  post_send-guarded q s p h =
      let counted : is_exempt q.path ≡ false = rw p refl in
      limited-Authorised _ q s (rw counted at h)
