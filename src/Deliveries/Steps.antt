-- ===== src/Deliveries/Steps.antt =====
-- Sequences of operations on a delivery table with its worker: what one row goes through.
use skr_crypto.Deliveries.{
  Outcome, Delivery, Store, empty, add_last, enqueue, due, insert_next, sort_next, take_due,
  update_row, update_rows, force_retry,
}
use skr_crypto.Deliveries.Worker.{Settings, Probe, World, tick}
use skr_crypto.Prelude.{
  ℕ, zero, suc, ◌+◌, ◌≤◌, List, [], ◌∷◌, ◌≡◌, refl, arith, All, take, ◌==◌, if◌then◌else◌,
}

-- A call of the program or of the operator, or a turn of the worker.
pub data Op {ℓ} (C : Type ℓ) : Type ℓ where
  enqueued : ℕ → C → Op C
  ticked : ℕ → (ℕ → Probe) → Op C
  retried : ℕ → ℕ → Op C

-- The world, and the ids whose `force_retry` returned True.
pub record State {ℓ} (C : Type ℓ) : Type ℓ where
  pub world : World C
  pub retries : List ℕ

unfoldable pub count : ℕ → List ℕ → ℕ
count i [] = 0
count i (j ∷ js) = (if j == i then 1 else 0) + count i js

-- How often an id stands among the rows.
unfoldable pub rows_of {ℓ} : {C : Type ℓ} → ℕ → List (Delivery C) → ℕ
rows_of i [] = 0
rows_of i (d ∷ ds) = (if d.id == i then 1 else 0) + rows_of i ds

module _ {ℓ} {C : Type ℓ} where
  unfoldable pub step : Settings → Op C → State C → State C
  step cfg (enqueued now c) s = record s {
    world = record s.world { store = (enqueue now c s.world.store).1 };
  }
  step cfg (ticked now probes) s = record s { world = tick cfg now probes s.world }
  step cfg (retried now i) s =
      let (done, store) = force_retry now i s.world.store in
      record {
        world = record s.world { store = store };
        retries = if done then i ∷ s.retries else s.retries;
      }

  unfoldable pub run : Settings → List (Op C) → State C → State C
  unfolding step
  run cfg [] s = s
  run cfg (o ∷ os) s = run cfg os (step cfg o s)

  abbrev pub start : State C
  start = record { world = record { store = empty; posted = []; given_up = [] }; retries = [] }

  -- A predicate on all rows holds of those that a tick takes.
  module _ {κ} (P : Delivery C → Type κ) where
    All-insert_next :
        (d : Delivery C) (ds : List (Delivery C)) → P d → All P ds → All P (insert_next d ds)
    unfolding insert_next
    All-insert_next d [] h k = (h, tt)
    All-insert_next d (e ∷ es) h k = ground (arith, All-insert_next d es)

    pub All-sort_next : (ds : List (Delivery C)) → All P ds → All P (sort_next ds)
    unfolding sort_next
    All-sort_next [] k = tt
    All-sort_next (d ∷ ds) k = All-insert_next d (sort_next ds) k.0 (All-sort_next ds k.1)

    pub All-take : (n : ℕ) (ds : List (Delivery C)) → All P ds → All P (take n ds)
    All-take zero ds k = tt
    All-take (suc n) [] k = tt
    All-take (suc n) (d ∷ ds) k = (k.0, All-take n ds k.1)

  rows_of-insert_next :
      (i : ℕ) (d : Delivery C) (ds : List (Delivery C))
      → rows_of i (insert_next d ds) ≡ rows_of i (d ∷ ds)
  unfolding rows_of insert_next
  rows_of-insert_next i d [] = refl
  rows_of-insert_next i d (e ∷ es) = ground (arith, rows_of-insert_next i d es)

  pub rows_of-sort_next : (i : ℕ) (ds : List (Delivery C)) → rows_of i (sort_next ds) ≡ rows_of i ds
  unfolding rows_of sort_next
  rows_of-sort_next i [] = refl
  rows_of-sort_next i (d ∷ ds) =
      omega (arith, rows_of-insert_next i d (sort_next ds), rows_of-sort_next i ds)

  pub rows_of-take : (i n : ℕ) (ds : List (Delivery C)) → rows_of i (take n ds) ≤ rows_of i ds
  unfolding rows_of
  rows_of-take i zero ds = omega arith
  rows_of-take i (suc n) [] = omega arith
  rows_of-take i (suc n) (d ∷ ds) = omega (arith, rows_of-take i n ds)

  pub rows_of-due : (i now : ℕ) (ds : List (Delivery C)) → rows_of i (due now ds) ≤ rows_of i ds
  unfolding rows_of due
  rows_of-due i now [] = omega arith
  rows_of-due i now (d ∷ ds) = ground (arith, rows_of-due i now ds)

  pub rows_of-take_due :
      (i limit now : ℕ) (s : Store C) → rows_of i (take_due limit now s) ≤ rows_of i s.rows
  unfolding take_due
  rows_of-take_due i limit now s = omega (
    arith,
    rows_of-take i limit (sort_next (due now s.rows)),
    rows_of-sort_next i (due now s.rows),
    rows_of-due i now s.rows,
  )

  pub rows_of-add_last :
      (i : ℕ) (d : Delivery C) (ds : List (Delivery C))
      → rows_of i (add_last d ds) ≡ rows_of i (d ∷ ds)
  unfolding rows_of add_last
  rows_of-add_last i d [] = refl
  rows_of-add_last i d (e ∷ es) = omega (arith, rows_of-add_last i d es)

  pub rows_of-update_rows :
      (i j : ℕ) (o : Outcome) (ds : List (Delivery C))
      → rows_of i (update_rows j o ds) ≡ rows_of i ds
  unfolding rows_of update_rows update_row
  rows_of-update_rows i j o [] = refl
  rows_of-update_rows i j o (d ∷ ds) = ground (arith, rows_of-update_rows i j o ds)
