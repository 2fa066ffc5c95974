-- ===== src/Idempotency/Equivalence.antt =====
-- "Two implementations with identical semantics" (skr_crypto/server/idempotency.py): sequences of calls
-- on two stores that implement the interface, and their replies.
use skr_crypto.Prelude.{ℕ, String, true, List, [], ◌∷◌, ◌≡◌, refl, arith}
use skr_crypto.Idempotency.{Store, Answer, Ack, is_real, in_flight}

pub data Call : Type 0 where
  reserve release : String → Call
  commit : String → String → Call

pub data Reply : Type 0 where
  answered : Answer → Reply
  acked : Ack → Reply

module _ (I : Store) where
  abbrev pub call : ℕ → Call → I.State → Reply × I.State
  call now (reserve k) s = let (a, s') = I.reserve now k s in (answered a, s')
  call now (commit k txid) s = let (a, s') = I.commit now k txid s in (acked a, s')
  call now (release k) s = let (a, s') = I.release k s in (acked a, s')

  -- Each call with its clock reading; the replies in order.
  unfoldable pub replies : List (ℕ × Call) → I.State → List Reply
  replies [] s = []
  replies ((now, c) ∷ cs) s = let (r, s') = call now c s in r ∷ replies cs s'

  -- As `/send` calls a store: a key is committed only while it is in flight, with a real txid.
  abbrev pub Allowed : Call → I.State → Type 0
  Allowed (commit k txid) s = (I.phase s k ≡ in_flight) × (is_real txid ≡ true)
  Allowed c s = Unit {0}

  abbrev pub Disciplined : List (ℕ × Call) → I.State → Type 0
  Disciplined [] s = Unit {0}
  Disciplined ((now, c) ∷ cs) s = Allowed c s × Disciplined cs (call now c s).1

module _ (I J : Store) where
  pub record Agree (s : I.State) (t : J.State) : Type 0 where
    pub open_left : I.IsOpen s
    pub open_right : J.IsOpen t
    pub phases : (k : String) → I.phase s k ≡ J.phase t k

  call-Agree :
      (now now' : ℕ) (c : Call) (s : I.State) (t : J.State)
      → Agree s t
      → Allowed I c s
      → ((call I now c s).0 ≡ (call J now' c t).0) × Agree (call I now c s).1 (call J now' c t).1
  call-Agree now now' (reserve k) s t g a = (
    ground (
      arith,
      I.reserve-answer now k s g.open_left,
      J.reserve-answer now' k t g.open_right,
      g.phases k,
    ),
    record {
      open_left = I.reserve-IsOpen now k s g.open_left;
      open_right = J.reserve-IsOpen now' k t g.open_right;
      phases = λ j. ground (
        arith,
        I.phase-reserve now k j s g.open_left,
        J.phase-reserve now' k j t g.open_right,
        g.phases k,
        g.phases j,
      );
    },
  )
  call-Agree now now' (commit k txid) s t g a = (
    ground (
      arith,
      I.commit-done now k txid s g.open_left a.1,
      J.commit-done now' k txid t g.open_right a.1,
    ),
    record {
      open_left = I.commit-IsOpen now k txid s g.open_left;
      open_right = J.commit-IsOpen now' k txid t g.open_right;
      phases = λ j. ground (
        arith,
        I.phase-commit now k txid j s g.open_left a.1 a.0,
        J.phase-commit now' k txid j t g.open_right a.1,
        g.phases k,
        g.phases j,
      );
    },
  )
  call-Agree now now' (release k) s t g a = (
    ground (arith, I.release-done k s g.open_left, J.release-done k t g.open_right),
    record {
      open_left = I.release-IsOpen k s g.open_left;
      open_right = J.release-IsOpen k t g.open_right;
      phases = λ j. ground (
        arith,
        I.phase-release k j s g.open_left,
        J.phase-release k j t g.open_right,
        g.phases k,
        g.phases j,
      );
    },
  )

  -- From states that show the same phases, two implementations answer every disciplined sequence of
  -- calls alike.
  pub same_replies :
      (cs : List (ℕ × Call)) (s : I.State) (t : J.State)
      → Agree s t
      → Disciplined I cs s
      → replies I cs s ≡ replies J cs t
  unfolding replies
  same_replies [] s t g d = refl
  same_replies ((now, c) ∷ cs) s t g d =
      let step = call-Agree now now c s t g d.0 in
      cc (step.0, same_replies cs (call I now c s).1 (call J now c t).1 step.1 d.1)
