-- ===== src/Idempotency/Protocol/Soundness.antt =====
-- How each step of the protocol moves the phase of a key, the requests that hold it, and what was sent
-- for it.
use skr_crypto.Prelude.{
  ℕ, ◌+◌, String, true, none, some, List, [], ◌∷◌, ◌++◌, ◌≡◌, ◌≢◌, arith, eq_iff, eq_refl,
}
use skr_crypto.Idempotency.{Durable, Phase, claimed, in_flight, is_real}
use skr_crypto.Idempotency.Protocol.{
  Request, holding, unsaved, times_sent, Consistent, System, Step, Reach, IsSound, begin, refuse,
  broadcast, save, give_up, lose, crash, here, next, start,
}

holding-append :
    (j : String) (xs ys : List Request) → holding j (xs ++ ys) ≡ holding j xs + holding j ys
unfolding holding
holding-append j [] ys = omega arith
holding-append j ((k, none) ∷ xs) ys = omega (arith, holding-append j xs ys)
holding-append j ((k, some txid) ∷ xs) ys = holding-append j xs ys

unsaved-append :
    (j : String) (xs ys : List Request) → unsaved j (xs ++ ys) ≡ unsaved j xs + unsaved j ys
unfolding unsaved
unsaved-append j [] ys = omega arith
unsaved-append j ((k, none) ∷ xs) ys = unsaved-append j xs ys
unsaved-append j ((k, some txid) ∷ xs) ys = omega (arith, unsaved-append j xs ys)

-- A request holds its own key, so that key is in flight.
pub unsaved-in_flight :
    (k txid : String) (p : Phase) (pre post : List Request) (h n m : ℕ)
    → Consistent p h (unsaved k (pre ++ (k, some txid) ∷ post)) n m
    → p ≡ in_flight
unfolding unsaved
unsaved-in_flight k txid p pre post h n m c =
    ground (arith, eq_refl k, unsaved-append k pre ((k, some txid) ∷ post))

module _ (D : Durable) where
  open D use {store, restart, phase-restart, restart-IsOpen}
  open store use {
    State, IsOpen, phase, reserve, commit, release, reserve-answer, phase-reserve, reserve-IsOpen,
    phase-commit, commit-IsOpen, phase-release, release-IsOpen,
  }

  begin-Consistent :
      (now : ℕ) (k j : String) (s : State) (l : List Request) (n m : ℕ)
      → IsOpen s
      → (reserve now k s).0 ≡ claimed
      → Consistent (phase s j) (holding j l) (unsaved j l) n m
      → Consistent
          (phase (reserve now k s).1 j)
          (holding j ((k, none) ∷ l))
          (unsaved j ((k, none) ∷ l))
          n
          m
  unfolding holding unsaved
  begin-Consistent now k j s l n m o e h =
      ground (arith, reserve-answer now k s, phase-reserve now k j s, eq_iff k j)

  refuse-Consistent :
      (now : ℕ) (k j : String) (s : State) (h u n m : ℕ)
      → IsOpen s
      → (reserve now k s).0 ≢ claimed
      → Consistent (phase s j) h u n m
      → Consistent (phase (reserve now k s).1 j) h u n m
  refuse-Consistent now k j s h u n m o e c =
      ground (arith, reserve-answer now k s, phase-reserve now k j s, eq_iff k j)

  broadcast-Consistent :
      (k txid j : String) (p : Phase) (pre post : List Request) (sent : List (String × String))
      (m : ℕ)
      → Consistent p
          (holding j (pre ++ (k, none) ∷ post))
          (unsaved j (pre ++ (k, none) ∷ post))
          (times_sent j sent)
          m
      → Consistent p
          (holding j (pre ++ (k, some txid) ∷ post))
          (unsaved j (pre ++ (k, some txid) ∷ post))
          (times_sent j ((k, txid) ∷ sent))
          m
  unfolding holding unsaved times_sent
  broadcast-Consistent k txid j p pre post sent m c = ground (
    arith,
    holding-append j pre ((k, none) ∷ post),
    unsaved-append j pre ((k, none) ∷ post),
    holding-append j pre ((k, some txid) ∷ post),
    unsaved-append j pre ((k, some txid) ∷ post),
  )

  save-Consistent :
      (now : ℕ) (k txid j : String) (s : State) (pre post : List Request) (n m : ℕ)
      → IsOpen s
      → is_real txid ≡ true
      → phase s k ≡ in_flight
      → Consistent
          (phase s j)
          (holding j (pre ++ (k, some txid) ∷ post))
          (unsaved j (pre ++ (k, some txid) ∷ post))
          n
          m
      → Consistent
          (phase (commit now k txid s).1 j)
          (holding j (pre ++ post))
          (unsaved j (pre ++ post))
          n
          m
  unfolding holding unsaved
  save-Consistent now k txid j s pre post n m o real flight c = ground (
    arith,
    phase-commit now k txid j s,
    eq_iff k j,
    holding-append j pre ((k, some txid) ∷ post),
    unsaved-append j pre ((k, some txid) ∷ post),
    holding-append j pre post,
    unsaved-append j pre post,
  )

  give_up-Consistent :
      (k j : String) (s : State) (pre post : List Request) (n m : ℕ)
      → IsOpen s
      → Consistent
          (phase s j)
          (holding j (pre ++ (k, none) ∷ post))
          (unsaved j (pre ++ (k, none) ∷ post))
          n
          m
      → Consistent (phase (release k s).1 j) (holding j (pre ++ post)) (unsaved j (pre ++ post)) n m
  unfolding holding unsaved
  give_up-Consistent k j s pre post n m o c = ground (
    arith,
    phase-release k j s,
    eq_iff k j,
    holding-append j pre ((k, none) ∷ post),
    unsaved-append j pre ((k, none) ∷ post),
    holding-append j pre post,
    unsaved-append j pre post,
  )

  lose-Consistent :
      (k txid j : String) (s : State) (pre post : List Request) (n : ℕ)
      (lost : List (String × String))
      → IsOpen s
      → phase s k ≡ in_flight
      → Consistent
          (phase s j)
          (holding j (pre ++ (k, some txid) ∷ post))
          (unsaved j (pre ++ (k, some txid) ∷ post))
          n
          (times_sent j lost)
      → Consistent
          (phase (release k s).1 j)
          (holding j (pre ++ post))
          (unsaved j (pre ++ post))
          n
          (times_sent j ((k, txid) ∷ lost))
  unfolding holding unsaved times_sent
  lose-Consistent k txid j s pre post n lost o flight c = ground (
    arith,
    phase-release k j s,
    eq_iff k j,
    holding-append j pre ((k, some txid) ∷ post),
    unsaved-append j pre ((k, some txid) ∷ post),
    holding-append j pre post,
    unsaved-append j pre post,
  )

  crash-Consistent :
      (now : ℕ) (j : String) (s : State) (h u n m : ℕ)
      → Consistent (phase s j) h u n m
      → Consistent (phase (restart now s) j) (holding j []) (unsaved j []) n m
  unfolding holding unsaved
  crash-Consistent now j s h u n m c = ground (arith, phase-restart now j s)

  pub Step-IsSound : {s t : System D} → Step D s t → IsSound D s → IsSound D t
  Step-IsSound {s} (begin now k e r) v = rw r (record {
    is_open = reserve-IsOpen now k s.state v.is_open;
    keys = λ j. begin-Consistent now k j s.state s.active _ _ v.is_open e (v.keys j);
  })
  Step-IsSound {s} (refuse now k e r) v = rw r (record {
    is_open = reserve-IsOpen now k s.state v.is_open;
    keys = λ j. refuse-Consistent now k j s.state _ _ _ _ v.is_open e (v.keys j);
  })
  Step-IsSound {s} (broadcast k txid pre post e r) v = rw r (record {
    is_open = v.is_open;
    keys =
        λ j. broadcast-Consistent k txid j (phase s.state j) pre post s.sent _ (rw e at (v.keys j));
  })
  Step-IsSound {s} (save now k txid pre post e real r) v = rw r (record {
    is_open = commit-IsOpen now k txid s.state v.is_open;
    keys = λ j.
        save-Consistent now k txid j s.state pre post _ _ v.is_open real
          (unsaved-in_flight k txid (phase s.state k) pre post _ _ _ (rw e at (v.keys k)))
          (rw e at (v.keys j));
  })
  Step-IsSound {s} (give_up k pre post e r) v = rw r (record {
    is_open = release-IsOpen k s.state v.is_open;
    keys = λ j. give_up-Consistent k j s.state pre post _ _ v.is_open (rw e at (v.keys j));
  })
  Step-IsSound {s} (lose k txid pre post e r) v = rw r (record {
    is_open = release-IsOpen k s.state v.is_open;
    keys = λ j.
        lose-Consistent k txid j s.state pre post _ s.lost v.is_open
          (unsaved-in_flight k txid (phase s.state k) pre post _ _ _ (rw e at (v.keys k)))
          (rw e at (v.keys j));
  })
  Step-IsSound {s} (crash now r) v = rw r (record {
    is_open = restart-IsOpen now s.state;
    keys = λ j. crash-Consistent now j s.state _ _ _ _ (v.keys j);
  })

  pub Reach-IsSound : {s t : System D} → IsSound D s → Reach D s t → IsSound D t
  Reach-IsSound v here = v
  Reach-IsSound v (next r st) = Step-IsSound st (Reach-IsSound v r)

  start-IsSound_key :
      (now : ℕ) (s : State) (j : String) → Consistent (phase (restart now s) j) 0 0 0 0
  start-IsSound_key now s j = ground (arith, phase-restart now j s)

  -- After a startup no key is in flight, so the invariant holds.
  pub start-IsSound : (now : ℕ) (s : State) → IsSound D (start D now s)
  unfolding holding unsaved times_sent
  start-IsSound now s = record {
    is_open = restart-IsOpen now s;
    keys = λ j. start-IsSound_key now s j;
  }
