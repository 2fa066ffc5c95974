-- ===== src/Idempotency/Protocol/Safety.antt =====
-- What the protocol of skr_crypto/server/routes.py means for the owner of the funds.
use skr_crypto.Prelude.{ℕ, ◌+◌, ◌≤◌, String, ◌≡◌, ◌≢◌, arith, eq_iff, ◌<◌}
use skr_crypto.Idempotency.{Durable, Phase, claimed, duplicate, in_flight, committed}
use skr_crypto.Idempotency.Protocol.{
  Consistent, System, Step, Reach, IsSound, begin, refuse, broadcast, save, give_up, lose, crash,
  here, next, start, times_sent,
}
use skr_crypto.Idempotency.Protocol.Soundness.{Reach-IsSound, start-IsSound, unsaved-in_flight}

sent_le : (p : Phase) (h u n l : ℕ) → Consistent p h u n l → n ≤ 1 + l
sent_le p h u n l c = ground arith

module _ (D : Durable) where
  open D use {store, restart, phase-restart}
  open store use {
    State, phase, reserve, commit, release, reserve-answer, phase-reserve, phase-commit,
    phase-release,
  }

  -- From any startup, whatever requests interleave and wherever the process crashes and restarts,
  -- a key is broadcast once at most, not counting the broadcasts whose request ended with an exception
  -- and released the key.
  pub sent_at_most_once :
      (now : ℕ) (s : State) (t : System D)
      → Reach D (start D now s) t
      → (k : String) → times_sent k t.sent ≤ 1 + times_sent k t.lost
  sent_at_most_once now s t r k =
      sent_le _ _ _ _ _ ((Reach-IsSound D (start-IsSound D now s) r).keys k)

  -- In every reachable state a key is not given to a new request where one of its broadcasts was not
  -- followed by a release: while that request runs, once it has stored its txid, and after a crash.
  sent_not_claimed :
      (now now' : ℕ) (s : State) (t : System D)
      → Reach D (start D now s) t
      → (k : String) → times_sent k t.lost < times_sent k t.sent
      → (reserve now' k t.state).0 ≢ claimed
  sent_not_claimed now now' s t r k h = ground (
    arith,
    reserve-answer now' k t.state (Reach-IsSound D (start-IsSound D now s) r).is_open,
    (Reach-IsSound D (start-IsSound D now s) r).keys k,
  )

  Step-committed :
      {s t : System D} (k x : String)
      → IsSound D s
      → Step D s t
      → phase s.state k ≡ committed x
      → phase t.state k ≡ committed x
  Step-committed {s} k x v (begin now j e r) h =
      rw r (ground (arith, phase-reserve now j k s.state v.is_open, eq_iff j k))
  Step-committed {s} k x v (refuse now j e r) h =
      rw r (ground (arith, phase-reserve now j k s.state v.is_open, eq_iff j k))
  Step-committed {s} k x v (broadcast j txid pre post e r) h = rw r h
  Step-committed {s} k x v (save now j txid pre post e real r) h =
      let flight : phase s.state j ≡ in_flight =
        unsaved-in_flight j txid (phase s.state j) pre post _ _ _ (rw e at (v.keys j)) in
      rw r (ground (arith, phase-commit now j txid k s.state v.is_open real flight, eq_iff j k))
  Step-committed {s} k x v (give_up j pre post e r) h =
      rw r (ground (arith, phase-release j k s.state v.is_open, eq_iff j k))
  Step-committed {s} k x v (lose j txid pre post e r) h =
      rw r (ground (arith, phase-release j k s.state v.is_open, eq_iff j k))
  Step-committed {s} k x v (crash now r) h = rw r (ground (arith, phase-restart now k s.state))

  Reach-committed :
      {s t : System D} (k x : String)
      → IsSound D s
      → Reach D s t
      → phase s.state k ≡ committed x
      → phase t.state k ≡ committed x
  Reach-committed k x v here h = h
  Reach-committed k x v (next r st) h =
      Step-committed k x (Reach-IsSound D v r) st (Reach-committed k x v r h)

  -- Once a request has stored its txid, `reserve` answers every later request for the key with that
  -- txid, through any further steps, crashes and restarts.
  pub committed_forever :
      (now now' : ℕ) (s : State) (t u : System D) (k x : String)
      → Reach D (start D now s) t
      → phase t.state k ≡ committed x
      → Reach D t u
      → (reserve now' k u.state).0 ≡ duplicate x
  committed_forever now now' s t u k x r h r' =
      let v : IsSound D t = Reach-IsSound D (start-IsSound D now s) r in
      ground (
        arith,
        reserve-answer now' k u.state (Reach-IsSound D v r').is_open,
        Reach-committed k x v r' h,
      )
