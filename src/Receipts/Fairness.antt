-- ===== src/Receipts/Fairness.antt =====
-- Which payments a tick polls: the WHERE, ORDER BY and LIMIT of `_next_candidates_sqlite`.
use skr_crypto.Idempotency.Sqlite.{Db, Row}
use skr_crypto.Prelude.Dict.{Dict, lookup}
use skr_crypto.Receipts.Poller.{
  TxStatus, Settings, Candidate, is_candidate, candidate, select, insert_checked, sort_checked,
  next_candidates,
}
use skr_crypto.Prelude.{
  ℕ, zero, suc, ◌≤◌, String, true, some, List, [], ◌∷◌, ◌≡◌, ◌⊎◌, inl, inr, refl, ap, arith, take,
  length, eq_iff,
}

abbrev pub Among : Candidate → List Candidate → Type 0
Among c [] = ⊥
Among c (d ∷ ds) = (c ≡ d) ⊎ Among c ds

-- No candidate was checked later than `n`.
abbrev pub CheckedBy : ℕ → List Candidate → Type 0
CheckedBy n [] = Unit {0}
CheckedBy n (d ∷ ds) = (d.last_checked ≤ n) × CheckedBy n ds

-- None was checked before `n`.
abbrev CheckedFrom : ℕ → List Candidate → Type 0
CheckedFrom n [] = Unit {0}
CheckedFrom n (d ∷ ds) = (n ≤ d.last_checked) × CheckedFrom n ds

abbrev Sorted : List Candidate → Type 0
Sorted [] = Unit {0}
Sorted (d ∷ ds) = CheckedFrom d.last_checked ds × Sorted ds

CheckedFrom-mono : (m n : ℕ) (ds : List Candidate) → m ≤ n → CheckedFrom n ds → CheckedFrom m ds
CheckedFrom-mono m n [] h k = tt
CheckedFrom-mono m n (d ∷ ds) h k = (omega (arith, k.0), CheckedFrom-mono m n ds h k.1)

CheckedFrom-insert_checked :
    (n : ℕ) (c : Candidate) (ds : List Candidate)
    → n ≤ c.last_checked
    → CheckedFrom n ds
    → CheckedFrom n (insert_checked c ds)
unfolding insert_checked
CheckedFrom-insert_checked n c [] h k = (h, tt)
CheckedFrom-insert_checked n c (d ∷ ds) h k = ground (arith, CheckedFrom-insert_checked n c ds)

insert_checked-Sorted :
    (c : Candidate) (ds : List Candidate) → Sorted ds → Sorted (insert_checked c ds)
unfolding insert_checked
insert_checked-Sorted c [] v = (tt, tt)
insert_checked-Sorted c (d ∷ ds) v = ground (
  arith,
  insert_checked-Sorted c ds,
  CheckedFrom-insert_checked d.last_checked c ds,
  CheckedFrom-mono c.last_checked d.last_checked ds,
)

sort_checked-Sorted : (ds : List Candidate) → Sorted (sort_checked ds)
unfolding sort_checked
sort_checked-Sorted [] = tt
sort_checked-Sorted (d ∷ ds) = insert_checked-Sorted d (sort_checked ds) (sort_checked-Sorted ds)

insert_checked-Among :
    (c d : Candidate) (ds : List Candidate) → Among c (d ∷ ds) → Among c (insert_checked d ds)
unfolding insert_checked
insert_checked-Among c d [] h = h
insert_checked-Among c d (e ∷ ds) (inl h) = ground (arith, insert_checked-Among c d ds)
insert_checked-Among c d (e ∷ ds) (inr (inl h)) = ground (arith, insert_checked-Among c d ds)
insert_checked-Among c d (e ∷ ds) (inr (inr h)) = ground (arith, insert_checked-Among c d ds)

sort_checked-Among : (c : Candidate) (ds : List Candidate) → Among c ds → Among c (sort_checked ds)
unfolding sort_checked
sort_checked-Among c [] h = elim h [ ]
sort_checked-Among c (d ∷ ds) (inl h) = insert_checked-Among c d (sort_checked ds) (inl h)
sort_checked-Among c (d ∷ ds) (inr h) =
    insert_checked-Among c d (sort_checked ds) (inr (sort_checked-Among c ds h))

CheckedFrom-Among :
    (n : ℕ) (c : Candidate) (ds : List Candidate)
    → CheckedFrom n ds
    → Among c ds
    → n ≤ c.last_checked
CheckedFrom-Among n c [] k h = elim h [ ]
CheckedFrom-Among n c (d ∷ ds) k (inl h) = rw h k.0
CheckedFrom-Among n c (d ∷ ds) k (inr h) = CheckedFrom-Among n c ds k.1 h

take-Sorted :
    (n : ℕ) (c : Candidate) (ds : List Candidate)
    → Sorted ds
    → Among c ds
    → Among c (take n ds) ⊎ ((length (take n ds) ≡ n) × CheckedBy c.last_checked (take n ds))
take-Sorted zero c ds v h = inr (refl, tt)
take-Sorted (suc n) c [] v h = elim h [ ]
take-Sorted (suc n) c (d ∷ ds) v (inl h) = inl (inl h)
take-Sorted (suc n) c (d ∷ ds) v (inr h) = elim (take-Sorted n c ds v.1 h) [
  | inl m ↦ inl (inr m)
  | inr m ↦ inr (ap suc m.0, (CheckedFrom-Among d.last_checked c ds v.0 h, m.1))
]

select-Among :
    (cfg : Settings) (now : ℕ) (table : Dict TxStatus) (key : String) (row : Row) (rows : Dict Row)
    → lookup key rows ≡ some row
    → is_candidate cfg now row (lookup row.txid table) ≡ true
    → Among (candidate key row (lookup row.txid table)) (select cfg now table rows)
unfolding select lookup
select-Among cfg now table key row [] h k = ground arith
select-Among cfg now table key row ((j, r) ∷ rows) h k =
    ground (arith, eq_iff j key, select-Among cfg now table key row rows)

-- A payment that is to be polled is polled by the next tick, unless the batch is full of payments that
-- were not checked after it.
pub next_candidates-oldest :
    (cfg : Settings) (now : ℕ) (db : Db) (table : Dict TxStatus) (key : String) (row : Row)
    → lookup key db.rows ≡ some row
    → is_candidate cfg now row (lookup row.txid table) ≡ true
    → let c = candidate key row (lookup row.txid table) in
      let polled = next_candidates cfg now db table in
      Among c polled ⊎ ((length polled ≡ cfg.batch) × CheckedBy c.last_checked polled)
unfolding next_candidates
next_candidates-oldest cfg now db table key row h k =
    let c = candidate key row (lookup row.txid table) in
    let selected = select cfg now table db.rows in
    take-Sorted cfg.batch c (sort_checked selected) (sort_checked-Sorted selected)
      (sort_checked-Among c selected (select-Among cfg now table key row db.rows h k))
