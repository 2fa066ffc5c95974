-- ===== src/Deliveries/Tests.antt =====
-- A delivery table with its worker on small inputs.
use skr_crypto.Deliveries.{delivered, Delivery, get, list_recent, take_due, reset}
use skr_crypto.Deliveries.Worker.{Settings, Probe, deliver_all, tick}
use skr_crypto.Deliveries.Steps.{Op, enqueued, ticked, retried, count, run, start}
use skr_crypto.Deliveries.Attempts.{attempts_bounded}
use skr_crypto.Deliveries.Final.{delivered_final}
use skr_crypto.Exceptions.{returned, raised}
use skr_crypto.Prelude.{ℕ, ◌+◌, String, none, some, List, [], ◌∷◌, ◌≡◌, ◌≤◌, refl, false, max}

abbrev two_tries : Settings
two_tries = record { backoff = 0 ∷ 30 ∷ []; body_limit = 200 }

abbrev answered : ℕ → ℕ → ℕ → Probe
answered now code n = record {
  stopped = false;
  now = now;
  reply = returned (record { code = code; body = [] });
  saved = returned tt;
}

-- The receiver accepts, and the write that says so raises.
abbrev unsaved : ℕ → ℕ → Probe
unsaved now n = record (answered now 200 n) {
  saved = raised (record { class_name = "OperationalError"; text = "disk full" });
}

-- Two failures, a forced retry, and a success.
abbrev story : List (Op String)
story =
    enqueued 5 "a"
    ∷ ticked 5 (answered 5 500)
    ∷ ticked 10 (answered 10 500)
    ∷ ticked 40 (answered 40 503)
    ∷ []

abbrev retry : List (Op String)
retry = retried 50 1 ∷ ticked 50 (answered 50 200) ∷ []

-- The second tick comes before the row is due again.
posted_twice : (run two_tries story (start {C = String})).world.posted ≡ 1 ∷ 1 ∷ []
unfolding run tick deliver_all take_due skr_crypto.Deliveries.enqueue
    skr_crypto.Deliveries.update_outcome
posted_twice = refl

given_up_once : (run two_tries story (start {C = String})).world.given_up ≡ 1 ∷ []
unfolding run tick deliver_all take_due skr_crypto.Deliveries.enqueue
    skr_crypto.Deliveries.update_outcome
given_up_once = refl

retried_once : (run two_tries retry (run two_tries story start)).retries ≡ 1 ∷ []
unfolding run skr_crypto.Deliveries.force_retry tick deliver_all take_due
    skr_crypto.Deliveries.enqueue skr_crypto.Deliveries.update_outcome
retried_once = refl

posted_again :
    (run two_tries
      (enqueued 5 "a" ∷ ticked 5 (unsaved 5) ∷ ticked 40 (answered 40 200) ∷ [])
      (start {C = String})).world.posted
    ≡ 1 ∷ 1 ∷ []
unfolding run tick deliver_all take_due skr_crypto.Deliveries.enqueue
    skr_crypto.Deliveries.update_outcome
posted_again = refl

abbrev done : Delivery String
done = record {
  id = 1;
  content = "a";
  outcome = record {
    status = delivered;
    attempts = 3;
    next_attempt_at = 0;
    last_response_at = some 50;
    last_response_code = some 200;
    last_error = none;
  };
  created_at = 5;
}

all_posts : List (Op String)
all_posts =
    enqueued 5 "a"
    ∷ ticked 5 (answered 5 500)
    ∷ ticked 10 (answered 10 500)
    ∷ ticked 40 (answered 40 503)
    ∷ retried 50 1
    ∷ ticked 50 (answered 50 200)
    ∷ []

delivered_now : get 1 (run two_tries all_posts start).world.store ≡ some done
unfolding run get all_posts tick deliver_all take_due skr_crypto.Deliveries.force_retry
    skr_crypto.Deliveries.enqueue skr_crypto.Deliveries.update_outcome
delivered_now = refl

listed_now : list_recent 10 (run two_tries all_posts start).world.store ≡ done ∷ []
unfolding run list_recent all_posts tick deliver_all take_due skr_crypto.Deliveries.force_retry
    skr_crypto.Deliveries.enqueue skr_crypto.Deliveries.update_outcome
listed_now = refl

emptied :
    reset (run two_tries story (start {C = String})).world.store ≡ record { next_id = 1; rows = [] }
unfolding reset
emptied = refl

attempts_bounded_example :
    (3 ≡ count 1 (run two_tries all_posts (start {C = String})).world.posted)
    × (count 1 (run two_tries all_posts (start {C = String})).world.posted + 0
        ≤ max 1 2 + count 1 (run two_tries all_posts (start {C = String})).retries)
attempts_bounded_example = attempts_bounded 1 two_tries all_posts done delivered_now

delivered_final_example :
    (get 1 (run two_tries retry (run two_tries all_posts start)).world.store ≡ some done)
    × (count 1 (run two_tries retry (run two_tries all_posts (start {C = String}))).world.posted
        ≡ count 1 (run two_tries all_posts (start {C = String})).world.posted)
delivered_final_example = delivered_final 1 two_tries all_posts retry done delivered_now refl
