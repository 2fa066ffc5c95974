-- ===== src/Idempotency/Tests.antt =====
-- Runs of the stores on concrete inputs, and the theorems at such inputs.
use skr_crypto.Prelude.{ℕ, ◌+◌, ◌≤◌, String, true, none, some, List, [], ◌∷◌, ◌≡◌, refl}
use skr_crypto.Prelude.Dict.{Dict, lookup, insert, erase, map_values}
use skr_crypto.Idempotency.{free, committed, duplicate}
use skr_crypto.Idempotency.Memory
use skr_crypto.Idempotency.Sqlite
use skr_crypto.Idempotency.Sqlite.{Db}
use skr_crypto.Idempotency.Sqlite.Contract
use skr_crypto.Idempotency.Sqlite.Contract.{durable}
use skr_crypto.Idempotency.Wait.{Wake, notified, timed_out}
use skr_crypto.Idempotency.Equivalence.{Call, replies, same_replies}
use skr_crypto.Idempotency.Protocol.{
  System, start, times_sent, Reach, here, next, begin, broadcast, save, crash,
}
use skr_crypto.Idempotency.Protocol.Safety.{sent_at_most_once, committed_forever}

-- Reserve, commit, reserve again: the duplicate is answered with the stored txid.
memory_lifecycle :
    Memory.reserve "k" (Memory.commit "k" "ab12" (Memory.reserve "k" []).1).1
    ≡ (duplicate "ab12", ("k", "ab12") ∷ [])
unfolding Memory.reserve Memory.commit lookup insert
memory_lifecycle = refl

abbrev fresh : Db
fresh = record { is_open = true; process_id = "p1"; rows = [] }

abbrev crashed : Db
crashed = record {
  is_open = true;
  process_id = "p1";
  rows =
      (
        "k",
        record {
          txid = "";
          status = Sqlite.pending;
          process_id = "p1";
          created_at = 5;
          updated_at = 5;
        },
      )
      ∷ [];
}

orphan_recovered : Sqlite.recover_orphans 9 crashed ≡ (
  1,
  record crashed {
    rows =
        (
          "k",
          record {
            txid = "";
            status = Sqlite.unknown;
            process_id = "p1";
            created_at = 5;
            updated_at = 9;
          },
        )
        ∷ [];
  },
)
unfolding Sqlite.recover_orphans map_values
orphan_recovered = refl

-- "Identical semantics" has a limit: a commit of a key that was never reserved stores its txid in
-- memory, and is an UPDATE of no row in SQLite.
commit_unreserved :
    (Memory.phase (Memory.commit "k" "ab12" []).1 "k" ≡ committed "ab12")
    × (Sqlite.phase (Sqlite.commit 3 "k" "ab12" fresh).1 "k" ≡ free)
unfolding Memory.commit Sqlite.commit Sqlite.phase lookup insert
commit_unreserved = (refl, refl)

abbrev waits : List (Wake (Dict String))
waits = notified 2 (("k", "__PENDING__") ∷ []) ∷ timed_out 62 (("k", "__PENDING__") ∷ []) ∷ []

abbrev calls : List (ℕ × Call)
calls =
    (1, Call.reserve "a")
    ∷ (2, Call.reserve "b")
    ∷ (3, Call.commit "a" "ab12")
    ∷ (4, Call.release "b")
    ∷ (5, Call.reserve "a")
    ∷ []

same_replies_example : replies Memory.store calls [] ≡ replies Contract.store calls fresh
unfolding Memory.reserve Memory.commit Memory.release Sqlite.phase lookup insert erase
same_replies_example =
    same_replies Memory.store Contract.store calls [] fresh
      (record { open_left = tt; open_right = refl; phases = λ k. refl })
      (tt, (tt, ((refl, refl), (tt, (tt, tt)))))

abbrev Sys : Type 0
Sys = System (durable "p2")

abbrev reserved : Sys
reserved = record {
  state = (Sqlite.reserve 1 "k" (Sqlite.open_db 0 "p2" [])).1;
  active = ("k", none) ∷ [];
  sent = [];
  lost = [];
}

abbrev sent_once : Sys
sent_once = record reserved { active = ("k", some "ab12") ∷ []; sent = ("k", "ab12") ∷ [] }

abbrev saved : Sys
saved = record sent_once { state = (Sqlite.commit 2 "k" "ab12" reserved.state).1; active = [] }

abbrev restarted : Sys
restarted = record saved { state = Sqlite.open_db 9 "p2" sent_once.state.rows }

to_sent_once : Reach (durable "p2") (start (durable "p2") 0 fresh) sent_once
unfolding Sqlite.reserve Sqlite.open_db map_values lookup
to_sent_once = next (next here (begin 1 "k" refl refl)) (broadcast "k" "ab12" [] [] refl refl)

-- A request broadcasts, and the process crashes before it stores the txid.
to_restarted : Reach (durable "p2") (start (durable "p2") 0 fresh) restarted
to_restarted = next to_sent_once (crash 9 refl)

sent_at_most_once_example : times_sent "k" restarted.sent ≤ 1 + times_sent "k" restarted.lost
sent_at_most_once_example = sent_at_most_once (durable "p2") 0 fresh restarted to_restarted "k"

to_saved : Reach (durable "p2") (start (durable "p2") 0 fresh) saved
to_saved = next to_sent_once (save 2 "k" "ab12" [] [] refl refl refl)

abbrev saved_restarted : Sys
saved_restarted = record saved { state = Sqlite.open_db 9 "p2" saved.state.rows }

saved_to_restarted : Reach (durable "p2") saved saved_restarted
saved_to_restarted = next here (crash 9 refl)

committed_forever_example : (Sqlite.reserve 10 "k" saved_restarted.state).0 ≡ duplicate "ab12"
unfolding Sqlite.phase Sqlite.commit Sqlite.reserve lookup insert Sqlite.open_db map_values
committed_forever_example =
    committed_forever (durable "p2") 0 10 fresh saved saved_restarted "k" "ab12" to_saved refl
      saved_to_restarted
