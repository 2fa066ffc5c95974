-- ===== src/Idempotency/Wait.antt =====
-- The loop of `reserve` in skr_crypto/server/idempotency.py, the same in both classes: a pass under
-- the lock, and a wait on the condition while the key is in flight. What the other threads do is a
-- list with one event for each wait, with the clock and the store after it: the condition was
-- notified, or `wait` returned false after `_RESERVE_WAIT_TIMEOUT`. Where the list is used up the
-- call is still blocked.
use skr_crypto.Prelude.{
  ℕ, String, Bool, true, false, List, [], ◌∷◌, ◌≡◌, ◌≢◌, arith, All, eq_refl, any, if◌then◌else◌,
}
use skr_crypto.Idempotency.{Store, Answer, claimed, busy, unknown, closed, duplicate, in_flight}

pub data Wake (S : Type 0) : Type 0 where
  notified timed_out : ℕ → S → Wake S

-- What the caller of `reserve` sees: `None`, a txid, `IdempotencyConflict`,
-- `UnresolvedIdempotency`, the assertion, or no return yet.
pub data Reserved : Type 0 where
  mine conflict unresolved not_open blocked : Reserved
  existing : String → Reserved

abbrev pub seen : {S : Type 0} → Wake S → S
seen (notified now s) = s
seen (timed_out now s) = s

abbrev pub is_timeout : {S : Type 0} → Wake S → Bool
is_timeout (notified now s) = false
is_timeout (timed_out now s) = true

-- The end of a pass; a busy key goes on to the wait.
abbrev pub settle : {S : Type 0} → Answer × S → Reserved × S → Reserved × S
settle (claimed, s) waited = (mine, s)
settle (duplicate txid, s) waited = (existing txid, s)
settle (unknown, s) waited = (unresolved, s)
settle (closed, s) waited = (not_open, s)
settle (busy, s) waited = waited

module _ (I : Store) where
  open I use {State, IsOpen, phase, reserve, reserve-answer, phase-reserve}

  unfoldable pub reserve_wait : ℕ → String → State → List (Wake State) → Reserved × State
  reserve_wait now key s [] = settle (reserve now key s) (blocked, s)
  reserve_wait now key s (timed_out now' s' ∷ rest) = settle (reserve now key s) (conflict, s')
  reserve_wait now key s (notified now' s' ∷ rest) =
      settle (reserve now key s) (reserve_wait now' key s' rest)

  -- A call that returns `None` has put its key in flight.
  reserve_wait-mine :
      (now : ℕ) (key : String) (s : State) (wakes : List (Wake State))
      → IsOpen s
      → All (λ w. IsOpen (seen w)) wakes
      → (reserve_wait now key s wakes).0 ≡ mine
      → phase (reserve_wait now key s wakes).1 key ≡ in_flight
  unfolding reserve_wait
  reserve_wait-mine now key s [] o os h =
      ground (arith, reserve-answer now key s, phase-reserve now key key s, eq_refl key)
  reserve_wait-mine now key s (timed_out now' s' ∷ rest) o os h =
      ground (arith, reserve-answer now key s, phase-reserve now key key s, eq_refl key)
  reserve_wait-mine now key s (notified now' s' ∷ rest) o os h = ground (
    arith,
    reserve-answer now key s,
    phase-reserve now key key s,
    eq_refl key,
    reserve_wait-mine now' key s' rest,
  )

  -- While another request holds the key in flight, no caller is given it: the call ends by
  -- `IdempotencyConflict` at the first timeout, and is blocked until then.
  reserve_wait-in_flight :
      (now : ℕ) (key : String) (s : State) (wakes : List (Wake State))
      → IsOpen s
      → All (λ w. IsOpen (seen w)) wakes
      → phase s key ≡ in_flight
      → All (λ w. phase (seen w) key ≡ in_flight) wakes
      → (reserve_wait now key s wakes).0 ≡ (if any is_timeout wakes then conflict else blocked)
  unfolding reserve_wait
  reserve_wait-in_flight now key s [] o os h hs = ground (arith, reserve-answer now key s)
  reserve_wait-in_flight now key s (timed_out now' s' ∷ rest) o os h hs =
      ground (arith, reserve-answer now key s)
  reserve_wait-in_flight now key s (notified now' s' ∷ rest) o os h hs =
      ground (arith, reserve-answer now key s, reserve_wait-in_flight now' key s' rest)

  -- Any call whose waits include a timeout returns or raises.
  reserve_wait-returns :
      (now : ℕ) (key : String) (s : State) (wakes : List (Wake State))
      → any is_timeout wakes ≡ true
      → (reserve_wait now key s wakes).0 ≢ blocked
  unfolding reserve_wait
  reserve_wait-returns now key s [] h = cc
  reserve_wait-returns now key s (timed_out now' s' ∷ rest) h = ground arith
  reserve_wait-returns now key s (notified now' s' ∷ rest) h =
      ground (arith, reserve_wait-returns now' key s' rest)
