-- ===== src/Idempotency.antt =====
-- skr_crypto/server/idempotency.py: what both stores promise, as an interface. `Memory` and
-- `Sqlite` model the two classes and implement it; `Wait` is the loop of `reserve` around one pass
-- under the lock, `Protocol` the requests, crashes and restarts that use a durable store.
pub mod Memory
pub mod Sqlite
pub mod Wait
pub mod Protocol
pub mod Equivalence
mod Tests
use skr_crypto.Prelude.{ℕ, String, Bool, ◌≡◌, ◌&&◌, not, true, false, str_eq, if◌then◌else◌}

-- `_PENDING`
abbrev pub pending : String
pending = "__PENDING__"

-- The guard of both `commit` methods: `not (not txid or txid == _PENDING)`.
abbrev pub is_real : String → Bool
is_real txid = not (str_eq txid "") && not (str_eq txid pending)

-- What a store holds for a key, as its callers can see it.
pub data Phase : Type 0 where
  free in_flight unresolved : Phase
  committed : String → Phase

-- How one pass of `reserve` under the lock ends: `return None`, `return txid`, a wait on the
-- condition, `UnresolvedIdempotency`, or the assertion that the connection is open.
pub data Answer : Type 0 where
  claimed busy unknown closed : Answer
  duplicate : String → Answer

-- How `commit` and `release` end: normally, by `ValueError`, or by the assertion.
pub data Ack : Type 0 where
  done invalid_txid not_open : Ack

abbrev pub answer : Phase → Answer
answer free = claimed
answer in_flight = busy
answer unresolved = unknown
answer (committed txid) = duplicate txid

-- `reserve` takes a free key and leaves every other key as it is.
abbrev pub claim : Phase → Phase
claim free = in_flight
claim p = p

-- `release` frees a key in flight and leaves every other key as it is.
abbrev pub freed : Phase → Phase
freed in_flight = free
freed p = p

-- A startup after a crash: whatever was in flight is unresolved.
abbrev pub recovered : Phase → Phase
recovered in_flight = unresolved
recovered p = p

-- The operations of a store, each under the lock, and their effect on every key. The first argument
-- of `reserve` and `commit` is the clock.
pub record Store : Type 1 where
  pub State : Type 0
  pub IsOpen : State → Type 0
  pub phase : State → String → Phase
  pub reserve : ℕ → String → State → Answer × State
  pub commit : ℕ → String → String → State → Ack × State
  pub release : String → State → Ack × State
  pub reserve-answer :
      (now : ℕ) (k : String) (s : State) → IsOpen s → (reserve now k s).0 ≡ answer (phase s k)
  pub phase-reserve :
      (now : ℕ) (k j : String) (s : State)
      → IsOpen s
      → phase (reserve now k s).1 j ≡ (if str_eq k j then claim (phase s k) else phase s j)
  pub reserve-IsOpen : (now : ℕ) (k : String) (s : State) → IsOpen s → IsOpen (reserve now k s).1
  pub commit-done :
      (now : ℕ) (k t : String) (s : State)
      → IsOpen s
      → is_real t ≡ true
      → (commit now k t s).0 ≡ done
  pub phase-commit :
      (now : ℕ) (k t j : String) (s : State)
      → IsOpen s
      → is_real t ≡ true
      → phase s k ≡ in_flight
      → phase (commit now k t s).1 j ≡ (if str_eq k j then committed t else phase s j)
  pub commit-IsOpen : (now : ℕ) (k t : String) (s : State) → IsOpen s → IsOpen (commit now k t s).1
  pub commit-invalid :
      (now : ℕ) (k t : String) (s : State)
      → is_real t ≡ false
      → commit now k t s ≡ (invalid_txid, s)
  pub release-done : (k : String) (s : State) → IsOpen s → (release k s).0 ≡ done
  pub phase-release :
      (k j : String) (s : State)
      → IsOpen s
      → phase (release k s).1 j ≡ (if str_eq k j then freed (phase s k) else phase s j)
  pub release-IsOpen : (k : String) (s : State) → IsOpen s → IsOpen (release k s).1

-- A store that survives the process: a restart reopens it and promotes what was in flight.
pub record Durable : Type 1 where
  pub store : Store
  pub restart : ℕ → store.State → store.State
  pub phase-restart :
      (now : ℕ) (j : String) (s : store.State)
      → store.phase (restart now s) j ≡ recovered (store.phase s j)
  pub restart-IsOpen : (now : ℕ) (s : store.State) → store.IsOpen (restart now s)
