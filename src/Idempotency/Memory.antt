-- ===== src/Idempotency/Memory.antt =====
-- `IdempotencyStore` of skr_crypto/server/idempotency.py: the dict `_store`, under the condition's
-- lock. Logging and `notify_all` leave no trace in the state.
use skr_crypto.Prelude.{
  ℕ, String, Option, none, some, [], ◌≡◌, refl, true, false, arith, str_eq, eq_iff, length,
  if◌then◌else◌,
}
use skr_crypto.Prelude.Dict.{Dict, lookup, insert, erase, lookup-insert, lookup-erase}
use skr_crypto.Idempotency.{
  pending, is_real, Phase, Answer, Ack, free, in_flight, committed, claimed, busy, duplicate, done,
  invalid_txid, answer, claim, freed, Store,
}

abbrev pub entry_phase : Option String → Phase
entry_phase none = free
entry_phase (some v) = if str_eq v pending then in_flight else committed v

abbrev pub phase : Dict String → String → Phase
phase store key = entry_phase (lookup key store)

reserve_entry : String → Option String → Dict String → Answer × Dict String
reserve_entry key none store = (claimed, insert key pending store)
reserve_entry key (some existing) store =
    if str_eq existing pending then (busy, store) else (duplicate existing, store)

-- One pass of the loop in `reserve`.
unfoldable pub reserve : String → Dict String → Answer × Dict String
unfolding reserve_entry
reserve key store = reserve_entry key (lookup key store) store

unfoldable pub commit : String → String → Dict String → Ack × Dict String
commit key txid store =
    if is_real txid then (done, insert key txid store) else (invalid_txid, store)

release_entry : String → Option String → Dict String → Dict String
release_entry key none store = store
release_entry key (some v) store = if str_eq v pending then erase key store else store

unfoldable pub release : String → Dict String → Dict String
unfolding release_entry
release key store = release_entry key (lookup key store) store

peek_entry : Option String → Option String
peek_entry none = none
peek_entry (some v) = if str_eq v pending then none else some v

unfoldable pub peek : String → Dict String → Option String
unfolding peek_entry
peek key store = peek_entry (lookup key store)

unfoldable pub count : Dict String → ℕ
count store = length store

-- `_reset_for_tests`
unfoldable pub reset : Dict String → Dict String
reset store = []

pub reserve-answer : (k : String) (s : Dict String) → (reserve k s).0 ≡ answer (phase s k)
unfolding reserve
reserve-answer k s = ground arith

pub phase-reserve :
    (k j : String) (s : Dict String)
    → phase (reserve k s).1 j ≡ (if str_eq k j then claim (phase s k) else phase s j)
unfolding reserve
phase-reserve k j s = ground (arith, eq_iff k j, lookup-insert k j pending s)

pub commit-done : (k t : String) (s : Dict String) → is_real t ≡ true → (commit k t s).0 ≡ done
unfolding commit
commit-done k t s h = rw h

-- A real txid is stored for its key, and no other key changes.
pub phase-commit :
    (k t j : String) (s : Dict String)
    → is_real t ≡ true
    → phase (commit k t s).1 j ≡ (if str_eq k j then committed t else phase s j)
unfolding commit
phase-commit k t j s h = ground (arith, lookup-insert k j t s)

pub commit-invalid :
    (k t : String) (s : Dict String) → is_real t ≡ false → commit k t s ≡ (invalid_txid, s)
unfolding commit
commit-invalid k t s h = rw h

pub phase-release :
    (k j : String) (s : Dict String)
    → phase (release k s) j ≡ (if str_eq k j then freed (phase s k) else phase s j)
unfolding release
phase-release k j s = ground (arith, eq_iff k j, lookup-erase k j s)

-- `peek` shows a key's txid exactly when the key is committed.
pub peek-committed :
    (k : String) (s : Dict String) (t : String) → peek k s ≡ some t → phase s k ≡ committed t
unfolding peek
peek-committed k s t h = ground arith

-- The in-memory store implements the interface.
abbrev pub store : Store
store = record {
  State = Dict String;
  IsOpen = λ s. Unit {0};
  phase = phase;
  reserve = λ now. reserve;
  commit = λ now. commit;
  release = λ k s. (done, release k s);
  reserve-answer = λ now k s _. reserve-answer k s;
  phase-reserve = λ now k j s _. phase-reserve k j s;
  reserve-IsOpen = λ now k s _. tt;
  commit-done = λ now k t s _. commit-done k t s;
  phase-commit = λ now k t j s _ h _. phase-commit k t j s h;
  commit-IsOpen = λ now k t s _. tt;
  commit-invalid = λ now. commit-invalid;
  release-done = λ k s _. refl;
  phase-release = λ k j s _. phase-release k j s;
  release-IsOpen = λ k s _. tt;
}
