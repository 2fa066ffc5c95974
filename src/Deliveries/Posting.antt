-- ===== src/Deliveries/Posting.antt =====
-- What one tick of the worker does to the number of attempts of a delivery.
use skr_crypto.Deliveries.{
  is_pending, Outcome, Delivery, add_last, due, sort_next, take_due, update_row, update_rows,
  update_outcome,
}
use skr_crypto.Deliveries.Worker
use skr_crypto.Deliveries.Worker.{
  Settings, Probe, World, failure, attempt, answered, deliver_one, deliver_all, tick,
}
use skr_crypto.Deliveries.Steps.{count, rows_of, All-sort_next, All-take, rows_of-take_due}
use skr_crypto.Exceptions.{Reply, returned, raised}
use skr_crypto.Prelude.{
  ℕ, ◌+◌, ◌≤◌, ◌≢◌, Bool, true, false, List, [], ◌∷◌, ◌≡◌, arith, All, length, max,
}

abbrev pub one_if : Bool → ℕ
one_if true = 1
one_if false = 0

-- A delivery always gets one attempt, and as many as the schedule is long.
abbrev pub allowed : Settings → ℕ
allowed cfg = max 1 (length cfg.backoff)

module _ {ℓ} {C : Type ℓ} (i : ℕ) where
  -- A row with id `i` had `n` attempts, and a pending one may have another within `b`.
  abbrev pub Good : ℕ → ℕ → Delivery C → Type 0
  Good n b d = d.id ≡ i → (d.outcome.attempts ≡ n) × (n + one_if (is_pending d.outcome.status) ≤ b)

  abbrev Ready : ℕ → ℕ → Delivery C → Type 0
  Ready n b d = d.id ≡ i → (d.outcome.attempts ≡ n) × (n + 1 ≤ b)

  due-Ready :
      (n b now : ℕ) (ds : List (Delivery C)) → All (Good n b) ds → All (Ready n b) (due now ds)
  unfolding due
  due-Ready n b now [] h = tt
  due-Ready n b now (d ∷ ds) h = ground (arith, due-Ready n b now ds)

  pub update_other :
      (j n b : ℕ) (o : Outcome) (ds : List (Delivery C))
      → j ≢ i
      → All (Good n b) ds
      → All (Good n b) (update_rows j o ds)
  unfolding update_rows update_row
  update_other j n b o [] e h = tt
  update_other j n b o (d ∷ ds) e h = ground (arith, update_other j n b o ds)

  pub update_this :
      (n b : ℕ) (o : Outcome) (ds : List (Delivery C))
      → o.attempts ≡ n
      → n + one_if (is_pending o.status) ≤ b
      → All (Good n b) (update_rows i o ds)
  unfolding update_rows update_row
  update_this n b o [] e h = tt
  update_this n b o (d ∷ ds) e h = ground (arith, update_this n b o ds)

  Good-mono : (n a b : ℕ) (ds : List (Delivery C)) → a ≤ b → All (Good n a) ds → All (Good n b) ds
  Good-mono n a b [] h k = tt
  Good-mono n a b (d ∷ ds) h k = ground (arith, Good-mono n a b ds)

  pub add_last-Good :
      (n b : ℕ) (d : Delivery C) (ds : List (Delivery C))
      → Good n b d
      → All (Good n b) ds
      → All (Good n b) (add_last d ds)
  unfolding add_last
  add_last-Good n b d [] h k = (h, tt)
  add_last-Good n b d (e ∷ es) h k = (k.0, add_last-Good n b d es h k.1)

  no_row-Good : (n b : ℕ) (ds : List (Delivery C)) → rows_of i ds ≡ 0 → All (Good n b) ds
  unfolding rows_of
  no_row-Good n b [] h = tt
  no_row-Good n b (d ∷ ds) h = ground (arith, no_row-Good n b ds)

  no_row-Ready : (n b : ℕ) (ds : List (Delivery C)) → rows_of i ds ≡ 0 → All (Ready n b) ds
  unfolding rows_of
  no_row-Ready n b [] h = tt
  no_row-Ready n b (d ∷ ds) h = ground (arith, no_row-Ready n b ds)

  -- The posts of `i` are within `b`, and its rows agree with them.
  abbrev pub Within : ℕ → World C → Type 0
  Within b w = (count i w.posted ≤ b) × All (Good (count i w.posted) b) w.store.rows

attempt-attempts :
    (limit : ℕ) (backoff : List ℕ) (now a : ℕ) (r : Reply Worker.Response)
    → (attempt limit backoff now a r).attempts ≡ a + 1
unfolding attempt failure
attempt-attempts limit backoff now a (returned r) = ground arith
attempt-attempts limit backoff now a (raised e) = ground arith

attempt-pending :
    (limit : ℕ) (backoff : List ℕ) (now a b : ℕ) (r : Reply Worker.Response)
    → a + 1 ≤ b
    → length backoff ≤ b
    → a + 1 + one_if (is_pending (attempt limit backoff now a r).status) ≤ b
unfolding attempt failure
attempt-pending limit backoff now a b (returned r) h k = ground arith
attempt-pending limit backoff now a b (raised e) h k = ground arith

module _ {ℓ} {C : Type ℓ} (i : ℕ) (cfg : Settings) (b : ℕ) (enough : length cfg.backoff ≤ b) where
  deliver_one-Within :
      (d : Delivery C) (p : Probe) (w : World C)
      → Ready i (count i w.posted) b d
      → Within i b w
      → Within i b (deliver_one cfg d p w)
  unfolding deliver_one update_outcome count
  deliver_one-Within d p w r v =
      let o =
        attempt cfg.body_limit cfg.backoff p.now d.outcome.attempts (answered p.saved p.reply) in
      ground (
        arith,
        update_other i d.id (count i w.posted) b o w.store.rows,
        update_this i (count i w.posted + 1) b o w.store.rows,
        attempt-attempts cfg.body_limit cfg.backoff p.now d.outcome.attempts
            (answered p.saved p.reply),
        attempt-pending cfg.body_limit cfg.backoff p.now d.outcome.attempts b
            (answered p.saved p.reply),
      )

  count-deliver_one :
      (d : Delivery C) (p : Probe) (w : World C)
      → d.id ≢ i
      → count i (deliver_one cfg d p w).posted ≡ count i w.posted
  unfolding deliver_one count
  count-deliver_one d p w h = ground arith

  -- The rows that are still to be posted, none of them twice.
  deliver_all-Within :
      (probes : ℕ → Probe) (ds : List (Delivery C)) (w : World C)
      → rows_of i ds ≤ 1
      → All (Ready i (count i w.posted) b) ds
      → Within i b w
      → Within i b (deliver_all cfg probes ds w)
  unfolding deliver_all rows_of
  deliver_all-Within probes [] w o r v = v
  deliver_all-Within probes (d ∷ ds) w o r v = ground (
    arith,
    deliver_one-Within d (probes 0) w,
    count-deliver_one d (probes 0) w,
    no_row-Ready i (count i (deliver_one cfg d (probes 0) w).posted) b ds,
    deliver_all-Within (λ n. probes (n + 1)) ds (deliver_one cfg d (probes 0) w),
  )

  pub tick-Within :
      (now : ℕ) (probes : ℕ → Probe) (w : World C)
      → rows_of i w.store.rows ≤ 1
      → Within i b w
      → Within i b (tick cfg now probes w)
  unfolding tick take_due
  tick-Within now probes w o v =
      let n = count i w.posted in
      deliver_all-Within probes (take_due 50 now w.store) w
        (omega (arith, rows_of-take_due i 50 now w.store))
        (All-take (Ready i n b) 50 (sort_next (due now w.store.rows)) (
          All-sort_next (Ready i n b) (due now w.store.rows)
            (due-Ready i n b now w.store.rows v.1)))
        v
