-- ===== src/Deliveries/Final.antt =====
-- What happens to a row after it was marked as delivered.
use skr_crypto.Deliveries.{
  pending, delivered, is_pending, Outcome, Delivery, enqueue, add_last, due, sort_next, take_due,
  update_row, update_rows, update_outcome, find, get, force_retry,
}
use skr_crypto.Deliveries.Worker.{
  Settings, Probe, World, attempt, answered, deliver_one, deliver_all, tick,
}
use skr_crypto.Deliveries.Steps.{
  Op, enqueued, ticked, retried, State, count, rows_of, step, run, start, rows_of-due, rows_of-take,
  rows_of-sort_next,
}
use skr_crypto.Deliveries.Attempts.{Valid, start-Valid, step-Valid, run-Valid, count-deliver_all}
use skr_crypto.Prelude.{
  ℕ, ◌+◌, ◌≤◌, ◌≢◌, inl, inr, false, some, List, [], ◌∷◌, ◌≡◌, refl, ◌∙◌, arith, Option-cases,
}

module _ {C : Type 0} (i : ℕ) where
  find-update_other :
      (j : ℕ) (o : Outcome) (ds : List (Delivery C))
      → j ≢ i
      → find i (update_rows j o ds) ≡ find i ds
  unfolding find update_rows update_row
  find-update_other j o [] e = refl
  find-update_other j o (d ∷ ds) e = ground (arith, find-update_other j o ds)

  find-add_last :
      (e d : Delivery C) (ds : List (Delivery C))
      → find i ds ≡ some d
      → find i (add_last e ds) ≡ some d
  unfolding find add_last
  find-add_last e d [] h = ground arith
  find-add_last e d (c ∷ ds) h = ground (arith, find-add_last e d ds)

  find-deliver_all :
      (cfg : Settings) (probes : ℕ → Probe) (ds : List (Delivery C)) (w : World C)
      → rows_of i ds ≡ 0
      → find i (deliver_all cfg probes ds w).store.rows ≡ find i w.store.rows
  unfolding deliver_all deliver_one update_outcome rows_of
  find-deliver_all cfg probes [] w h = refl
  find-deliver_all cfg probes (d ∷ ds) w h =
      let p = probes 0 in
      let o =
        attempt cfg.body_limit cfg.backoff p.now d.outcome.attempts (answered p.saved p.reply) in
      ground (
        arith,
        find-update_other d.id o w.store.rows,
        find-deliver_all cfg (λ n. probes (n + 1)) ds (deliver_one cfg d p w),
      )

  -- A row that is not pending is not due, and no other row has its id.
  rows_of-due-settled :
      (now : ℕ) (d : Delivery C) (ds : List (Delivery C))
      → rows_of i ds ≤ 1
      → find i ds ≡ some d
      → is_pending d.outcome.status ≡ false
      → rows_of i (due now ds) ≡ 0
  unfolding rows_of due find
  rows_of-due-settled now d [] o h p = refl
  rows_of-due-settled now d (e ∷ es) o h p =
      ground (arith, rows_of-due-settled now d es, rows_of-due i now es)

  module _ (cfg : Settings) where
    abbrev Kept : Delivery C → State C → State C → Type 0
    Kept d s t =
        (find i t.world.store.rows ≡ some d) × (count i t.world.posted ≡ count i s.world.posted)

    step-Kept :
        (o : Op C) (d : Delivery C) (s : State C)
        → Valid i cfg s
        → find i s.world.store.rows ≡ some d
        → d.outcome.status ≡ delivered
        → Kept d s (step cfg o s)
    unfolding step enqueue tick take_due force_retry get update_outcome
    step-Kept (enqueued now c) d s v h e = (find-add_last _ d s.world.store.rows h, refl)
    step-Kept (ticked now probes) d s v h e =
        let rows = s.world.store.rows in
        ground (
          arith,
          find-deliver_all cfg probes (take_due 50 now s.world.store) s.world,
          count-deliver_all i cfg probes (take_due 50 now s.world.store) s.world,
          rows_of-take i 50 (sort_next (due now rows)),
          rows_of-sort_next i (due now rows),
          rows_of-due-settled now d rows,
        )
    step-Kept (retried now j) d s v h e =
        let rows = s.world.store.rows in
        elim (Option-cases (find j rows)) [
          | inl missing ↦ rw missing (h, refl)
          | inr (c, found) ↦
              let o = record c.outcome { status = pending; next_attempt_at = now } in
              ground (arith, found, find-update_other j o rows)
        ]

    run-Kept :
        (os : List (Op C)) (d : Delivery C) (s : State C)
        → Valid i cfg s
        → find i s.world.store.rows ≡ some d
        → d.outcome.status ≡ delivered
        → Kept d s (run cfg os s)
    unfolding run
    run-Kept [] d s v h e = (h, refl)
    run-Kept (o ∷ os) d s v h e =
        let k = step-Kept o d s v h e in
        let rest = run-Kept os d (step cfg o s) (step-Valid i cfg o s v) k.0 e in
        (rest.0, rest.1 ∙ k.1)

    -- A row that the worker has marked as delivered never changes and is never posted again, whatever
    -- is enqueued, polled or retried by force afterwards. A delivery whose mark was not written, since
    -- the write raised after the receiver's answer, is not such a row.
    pub delivered_final :
        (before after : List (Op C)) (d : Delivery C)
        → let s = run cfg before start in
          let t = run cfg after s in
          get i s.world.store ≡ some d
          → d.outcome.status ≡ delivered
          → (get i t.world.store ≡ some d) × (count i t.world.posted ≡ count i s.world.posted)
    unfolding get
    delivered_final before after d h e =
        run-Kept after d (run cfg before start) (run-Valid i cfg before start (start-Valid i cfg)) h
          e
