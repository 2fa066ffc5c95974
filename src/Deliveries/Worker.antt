-- ===== src/Deliveries/Worker.antt =====
-- `WebhookWorker` of skr_crypto/server/webhooks.py and `AlertWorker` of alerts.py: one delivery
-- attempt and one tick over the due rows. The request's answer and the clock are arguments.
use skr_crypto.Deliveries.{
  Status, pending, delivered, giving_up, Error, http, exception, Outcome, Delivery, Store, take_due,
  update_outcome,
}
use skr_crypto.Exceptions.{Reply, returned, raised}
use skr_crypto.Prelude.{
  ℕ, zero, suc, ◌+◌, Bool, true, false, ◌&&◌, Option, none, some, List, [], ◌∷◌, length, take, leb,
  ltb, if◌then◌else◌,
}

-- `resp.status_code` and the code points of `resp.text`.
pub record Response : Type 0 where
  pub code : ℕ
  pub body : List ℕ

-- `schedule[n]`; the callers check the bound first, beyond it Python raises.
unfoldable pub delay : ℕ → List ℕ → ℕ
delay n [] = 0
delay zero (t ∷ ts) = t
delay (suc n) (t ∷ ts) = delay n ts

-- `200 <= code < 300`
unfoldable pub is_success : ℕ → Bool
is_success code = leb 200 code && ltb code 300

-- What `_handle_failure` stores: give up, or wait as the schedule says.
unfoldable pub failure : List ℕ → ℕ → ℕ → Option ℕ → Error → Outcome
unfolding delay
failure backoff now attempts code e =
    if leb (length backoff) attempts
    then record {
      status = giving_up;
      attempts = attempts;
      next_attempt_at = 0;
      last_response_at = some now;
      last_response_code = code;
      last_error = some e;
    }
    else record {
      status = pending;
      attempts = attempts;
      next_attempt_at = now + delay attempts backoff;
      last_response_at = some now;
      last_response_code = code;
      last_error = some e;
    }

-- What `_deliver_one` stores for a row with `attempts` attempts; `limit` is the length to which the
-- body is cut, 200 for webhooks and 300 for alerts.
unfoldable pub attempt : ℕ → List ℕ → ℕ → ℕ → Reply Response → Outcome
unfolding is_success failure
attempt limit backoff now attempts (returned r) =
    if is_success r.code
    then record {
      status = delivered;
      attempts = attempts + 1;
      next_attempt_at = 0;
      last_response_at = some now;
      last_response_code = some r.code;
      last_error = none;
    }
    else failure backoff now (attempts + 1) (some r.code) (http r.code (take limit r.body))
attempt limit backoff now attempts (raised e) =
    failure backoff now (attempts + 1) none (exception e)

-- What one delivery of a tick meets: `_stop`, the clock, the answer to the POST, and how the write of
-- the outcome `delivered` ends.
pub record Probe : Type 0 where
  pub stopped : Bool
  pub now : ℕ
  pub reply : Reply Response
  pub saved : Reply (Unit {0})

accepted : Reply (Unit {0}) → Response → Reply Response
accepted (returned u) r = returned r
accepted (raised e) r = raised e

-- The `try` of `_deliver_one`: an exception of that write is handled as one of the POST.
unfoldable pub answered : Reply (Unit {0}) → Reply Response → Reply Response
unfolding accepted is_success
answered saved (raised e) = raised e
answered saved (returned r) = if is_success r.code then accepted saved r else returned r

-- The worker's settings, the length of an error's body with them.
pub record Settings : Type 0 where
  pub backoff : List ℕ
  pub body_limit : ℕ

-- The store, and the ids of the deliveries that were posted and that were given up, newest first.
pub record World {ℓ} (C : Type ℓ) : Type ℓ where
  pub store : Store C
  pub posted : List ℕ
  pub given_up : List ℕ

abbrev pub is_giving_up : Status → Bool
is_giving_up giving_up = true
is_giving_up _ = false

module _ {ℓ} {C : Type ℓ} (cfg : Settings) where
  unfoldable pub deliver_one : Delivery C → Probe → World C → World C
  unfolding attempt answered
  deliver_one d p w =
      let reply = answered p.saved p.reply in
      let o = attempt cfg.body_limit cfg.backoff p.now d.outcome.attempts reply in
      record {
        store = update_outcome d.id o w.store;
        posted = d.id ∷ w.posted;
        given_up = if is_giving_up o.status then d.id ∷ w.given_up else w.given_up;
      }

  -- The loop of `run`; the n-th row meets the n-th probe.
  unfoldable pub deliver_all : (ℕ → Probe) → List (Delivery C) → World C → World C
  unfolding deliver_one
  deliver_all probes [] w = w
  deliver_all probes (d ∷ ds) w =
      let rest = deliver_all (λ n. probes (n + 1)) ds (deliver_one d (probes 0) w) in
      if (probes 0).stopped then w else rest

  -- One turn of `run`, which takes at most 50 rows.
  unfoldable pub tick : ℕ → (ℕ → Probe) → World C → World C
  tick now probes w = deliver_all probes (take_due 50 now w.store) w
