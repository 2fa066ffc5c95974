-- ===== src/Idempotency/Protocol.antt =====
-- How `/send` uses a durable store (skr_crypto/server/routes.py, `_send_impl` from `reserve` on),
-- for any number of requests that interleave, with crashes and restarts: a request reserves its
-- key, broadcasts once, and commits or releases. A step stands for one critical section or one
-- broadcast; a request lives in `active` with the txid that it has broadcast and not stored. `lose` is
-- `except BaseException` after the broadcast was called, whatever became of it: the key is released.
pub mod Soundness
pub mod Safety
use skr_crypto.Prelude.{
  ℕ, ◌+◌, ◌≤◌, String, true, Option, none, some, List, [], ◌∷◌, ◌++◌, ◌≡◌, ◌≢◌, str_eq,
  if◌then◌else◌,
}
use skr_crypto.Idempotency.{
  Durable, Phase, claimed, free, in_flight, unresolved, committed, is_real,
}

abbrev pub Request : Type 0
Request = String × Option String

-- How many of the requests hold `j` before and after their broadcast, and how often `j` was sent.
unfoldable pub holding : String → List Request → ℕ
holding j [] = 0
holding j ((k, none) ∷ r) = (if str_eq k j then 1 else 0) + holding j r
holding j ((k, some txid) ∷ r) = holding j r

unfoldable pub unsaved : String → List Request → ℕ
unsaved j [] = 0
unsaved j ((k, none) ∷ r) = unsaved j r
unsaved j ((k, some txid) ∷ r) = (if str_eq k j then 1 else 0) + unsaved j r

unfoldable pub times_sent : String → List (String × String) → ℕ
times_sent j [] = 0
times_sent j ((k, txid) ∷ r) = (if str_eq k j then 1 else 0) + times_sent j r

-- What a key's phase says of the requests that hold it, of what was sent for it, and of what was
-- released after it was sent.
abbrev pub Consistent : Phase → ℕ → ℕ → ℕ → ℕ → Type 0
Consistent free h u n l = (h ≡ 0) × (u ≡ 0) × (n ≡ l)
Consistent in_flight h u n l = (h + u ≡ 1) × (n ≡ u + l)
Consistent unresolved h u n l = (h ≡ 0) × (u ≡ 0) × (n ≤ 1 + l)
Consistent (committed txid) h u n l = (h ≡ 0) × (u ≡ 0) × (n ≤ 1 + l)

module _ (D : Durable) where
  open D use {store, restart, phase-restart, restart-IsOpen}
  open store use {
    State, IsOpen, phase, reserve, commit, release, reserve-answer, phase-reserve, reserve-IsOpen,
    phase-commit, commit-IsOpen, phase-release, release-IsOpen,
  }

  pub record System : Type 0 where
    pub state : State
    pub active : List Request
    pub sent : List (String × String)
    pub lost : List (String × String)

  pub data Step (s t : System) : Type 0 where
    begin :
        (now : ℕ) (k : String)
        → (reserve now k s.state).0 ≡ claimed
        → t ≡ record s { state = (reserve now k s.state).1; active = (k, none) ∷ s.active }
        → Step s t
    refuse :
        (now : ℕ) (k : String)
        → (reserve now k s.state).0 ≢ claimed
        → t ≡ record s { state = (reserve now k s.state).1 }
        → Step s t
    broadcast :
        (k txid : String) (pre post : List Request)
        → s.active ≡ pre ++ (k, none) ∷ post
        → t ≡ record s { active = pre ++ (k, some txid) ∷ post; sent = (k, txid) ∷ s.sent }
        → Step s t
    save :
        (now : ℕ) (k txid : String) (pre post : List Request)
        → s.active ≡ pre ++ (k, some txid) ∷ post
        → is_real txid ≡ true
        → t ≡ record s { state = (commit now k txid s.state).1; active = pre ++ post }
        → Step s t
    give_up :
        (k : String) (pre post : List Request)
        → s.active ≡ pre ++ (k, none) ∷ post
        → t ≡ record s { state = (release k s.state).1; active = pre ++ post }
        → Step s t
    lose :
        (k txid : String) (pre post : List Request)
        → s.active ≡ pre ++ (k, some txid) ∷ post
        → t ≡ record s {
          state = (release k s.state).1;
          active = pre ++ post;
          lost = (k, txid) ∷ s.lost;
        }
        → Step s t
    crash : (now : ℕ) → t ≡ record s { state = restart now s.state; active = [] } → Step s t

  pub data Reach (s : System) : System → Type 0 where
    here : Reach s s
    next : {t u : System} → Reach s t → Step t u → Reach s u

  pub record IsSound (s : System) : Type 0 where
    pub is_open : IsOpen s.state
    pub keys :
        (j : String)
        → Consistent
            (phase s.state j)
            (holding j s.active)
            (unsaved j s.active)
            (times_sent j s.sent)
            (times_sent j s.lost)

  -- The service as it starts on whatever a store's earlier process left behind.
  abbrev pub start : ℕ → State → System
  start now s = record { state = restart now s; active = []; sent = []; lost = [] }
