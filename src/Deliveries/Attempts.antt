-- ===== src/Deliveries/Attempts.antt =====
-- The number of attempts that a delivery gets over a sequence of operations.
use skr_crypto.Deliveries.{
  pending, is_pending, Delivery, fresh, enqueue, add_last, take_due, update_outcome, find, get,
  force_retry,
}
use skr_crypto.Deliveries.Worker.{
  Settings, Probe, World, attempt, answered, deliver_one, deliver_all, tick,
}
use skr_crypto.Deliveries.Steps.{
  Op, enqueued, ticked, retried, State, count, rows_of, step, run, start, rows_of-take_due,
  rows_of-add_last, rows_of-update_rows,
}
use skr_crypto.Prelude.{
  ℕ, ◌+◌, ◌≤◌, Option-cases, inl, inr, some, List, [], ◌∷◌, ◌≡◌, refl, arith, All, length, max,
}
use skr_crypto.Deliveries.Posting.{
  one_if, allowed, Good, update_other, update_this, add_last-Good, Within, tick-Within,
}

abbrev pub budget : Settings → ℕ → List ℕ → ℕ
budget cfg i retries = allowed cfg + count i retries

-- An id stands in one row at most, an id to come in none, and the posts are within the budget.
pub record Valid {ℓ} {C : Type ℓ} (i : ℕ) (cfg : Settings) (s : State C) : Type 0 where
  pub within : Within i (budget cfg i s.retries) s.world
  pub once : rows_of i s.world.store.rows ≤ 1
  pub below :
      s.world.store.next_id ≤ i → (rows_of i s.world.store.rows ≡ 0) × (count i s.world.posted ≡ 0)

module _ {ℓ} {C : Type ℓ} (i : ℕ) (cfg : Settings) where
  pub start-Valid : Valid i cfg (start {C = C})
  unfolding count rows_of
  start-Valid = record { within = (omega arith, tt); once = omega arith; below = λ _. (refl, refl) }

  enqueued-Valid :
      (now : ℕ) (c : C) (s : State C) → Valid i cfg s → Valid i cfg (step cfg (enqueued now c) s)
  unfolding step enqueue rows_of
  enqueued-Valid now c s v =
      let n = count i s.world.posted in
      let b = budget cfg i s.retries in
      let rows = s.world.store.rows in
      let d : Delivery C = record {
        id = s.world.store.next_id;
        content = c;
        outcome = fresh now;
        created_at = now;
      } in
      let good : All (Good i n b) (add_last d rows) =
        add_last-Good i n b d rows (λ e. ground (arith, v.below)) v.within.1 in
      record {
        within = (v.within.0, good);
        once = ground (arith, rows_of-add_last i d rows, v.below);
        below = λ h. ground (arith, rows_of-add_last i d rows, v.below);
      }

  rows_of-deliver_all :
      (probes : ℕ → Probe) (ds : List (Delivery C)) (w : World C)
      → (rows_of i (deliver_all cfg probes ds w).store.rows ≡ rows_of i w.store.rows)
        × ((deliver_all cfg probes ds w).store.next_id ≡ w.store.next_id)
  unfolding deliver_all deliver_one update_outcome
  rows_of-deliver_all probes [] w = (refl, refl)
  rows_of-deliver_all probes (d ∷ ds) w =
      let o =
        attempt cfg.body_limit cfg.backoff (probes 0).now d.outcome.attempts
          (answered (probes 0).saved (probes 0).reply) in
      ground (
        arith,
        rows_of-update_rows i d.id o w.store.rows,
        rows_of-deliver_all (λ n. probes (n + 1)) ds (deliver_one cfg d (probes 0) w),
      )

  find-Good :
      (n b : ℕ) (ds : List (Delivery C)) (d : Delivery C)
      → All (Good i n b) ds
      → find i ds ≡ some d
      → (d.outcome.attempts ≡ n) × (n + one_if (is_pending d.outcome.status) ≤ b)
  unfolding find
  find-Good n b [] d k h = ground arith
  find-Good n b (e ∷ es) d k h = ground (arith, find-Good n b es d)

  -- Without a row nothing is posted.
  pub count-deliver_all :
      (probes : ℕ → Probe) (ds : List (Delivery C)) (w : World C)
      → rows_of i ds ≡ 0
      → count i (deliver_all cfg probes ds w).posted ≡ count i w.posted
  unfolding deliver_all deliver_one rows_of count
  count-deliver_all probes [] w h = refl
  count-deliver_all probes (d ∷ ds) w h =
      ground (arith, count-deliver_all (λ n. probes (n + 1)) ds (deliver_one cfg d (probes 0) w))

  ticked-Valid :
      (now : ℕ) (probes : ℕ → Probe) (s : State C)
      → Valid i cfg s
      → Valid i cfg (step cfg (ticked now probes) s)
  unfolding step tick
  ticked-Valid now probes s v = ground (
    arith,
    tick-Within i cfg (budget cfg i s.retries) (omega arith) now probes s.world,
    rows_of-deliver_all probes (take_due 50 now s.world.store) s.world,
    count-deliver_all probes (take_due 50 now s.world.store) s.world,
    rows_of-take_due i 50 now s.world.store,
  )

  retried-Valid :
      (now j : ℕ) (s : State C) → Valid i cfg s → Valid i cfg (step cfg (retried now j) s)
  unfolding step force_retry get update_outcome count
  retried-Valid now j s v = elim (Option-cases (find j s.world.store.rows)) [
    | inl missing ↦ rw missing v
    | inr (d, found) ↦
        let n = count i s.world.posted in
        let b = budget cfg i s.retries in
        let rows = s.world.store.rows in
        let o = record d.outcome { status = pending; next_attempt_at = now } in
        ground (
          arith,
          found,
          find-Good n b rows d,
          update_this i n (b + 1) o rows,
          update_other i j n b o rows,
          rows_of-update_rows i j o rows,
        )
  ]

  pub step-Valid : (o : Op C) (s : State C) → Valid i cfg s → Valid i cfg (step cfg o s)
  step-Valid (enqueued now c) = enqueued-Valid now c
  step-Valid (ticked now probes) = ticked-Valid now probes
  step-Valid (retried now j) = retried-Valid now j

  pub run-Valid : (os : List (Op C)) (s : State C) → Valid i cfg s → Valid i cfg (run cfg os s)
  unfolding run
  run-Valid [] s v = v
  run-Valid (o ∷ os) s v = run-Valid os (step cfg o s) (step-Valid o s v)

  -- After any enqueues, ticks and forced retries the row of a delivery counts exactly its posts, which
  -- are at most as many as the schedule is long (one if it is empty) and one more for each retry that
  -- was granted; a row that is still pending has had fewer.
  pub attempts_bounded :
      (os : List (Op C)) (d : Delivery C)
      → let s = run cfg os start in
        let posts = count i s.world.posted in
        let most = max 1 (length cfg.backoff) + count i s.retries in
        get i s.world.store ≡ some d
        → (d.outcome.attempts ≡ posts) × (posts + one_if (is_pending d.outcome.status) ≤ most)
  unfolding get
  attempts_bounded os d h =
      let s = run cfg os start in
      let v = run-Valid os start start-Valid in
      find-Good (count i s.world.posted) (budget cfg i s.retries) s.world.store.rows d v.within.1 h
