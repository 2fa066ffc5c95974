-- ===== src/Startup.antt =====
-- skr_crypto/server/startup_check.py: the reconciliation of today's successful sends with the chain.
-- The records are the lines of the audit file that decode; a time stamp is what `_parse_iso` finds,
-- in the clock's unit. The audit record at the end is the summary here.
mod Verdict
mod Tests
use skr_crypto.Exceptions.{Exc, Reply, returned, raised}
use skr_crypto.Prelude.Text.{mentions_lower}
use skr_crypto.Prelude.{
  ℕ, ◌+◌, String, Bool, false, ◌&&◌, ◌||◌, not, Option, none, some, List, [], ◌∷◌, any, length, ltb,
  str_eq, ◌==◌, if◌then◌else◌,
}

-- The keys of a record that the check reads.
pub record Record : Type 0 where
  pub event : String
  pub timestamp : Option ℕ
  pub txid : String
  pub to_address : String

-- What the node says: nothing, or the receipt's "result", "" where it has none.
pub data Info : Type 0 where
  no_info : Info
  receipt : String → Info

unfoldable pub is_missing : Exc → Bool
is_missing e =
    mentions_lower "not found" e.text || mentions_lower "transactionnotfound" e.class_name

unfoldable pub verify_txid_on_chain : Reply Info → String
unfolding is_missing
verify_txid_on_chain (raised e) = if is_missing e then "NOT_FOUND" else "RPC_ERROR"
verify_txid_on_chain (returned no_info) = "NOT_FOUND"
verify_txid_on_chain (returned (receipt result)) = if str_eq result "" then "SUCCESS" else result

is_since : ℕ → Option ℕ → Bool
is_since start none = false
is_since start (some t) = not (ltb t start)

-- The tests of the first loop, but for the txids seen before.
unfoldable pub is_relevant : ℕ → Record → Bool
unfolding is_since
is_relevant start r =
    str_eq r.event "SEND_SUCCESS" && is_since start r.timestamp && not (str_eq r.txid "")

abbrev pub has_txid : String → List Record → Bool
has_txid t rs = any (λ r. str_eq r.txid t) rs

add_last : Record → List Record → List Record
add_last r [] = r ∷ []
add_last r (s ∷ ss) = s ∷ add_last r ss

-- `successes`, in the order of insertion.
unfoldable pub collect : ℕ → List Record → List Record → List Record
unfolding is_relevant add_last
collect start [] found = found
collect start (r ∷ rs) found =
    collect start rs
      (if is_relevant start r && not (has_txid r.txid found) then add_last r found else found)

unfoldable pub successes : ℕ → List Record → List Record
unfolding collect
successes start rs = collect start rs []

-- How many of the sends went to an address.
unfoldable pub sent_to : String → List Record → ℕ
sent_to a [] = 0
sent_to a (r ∷ rs) = (if str_eq r.to_address a then 1 else 0) + sent_to a rs

-- Whether some recipient has more than one of them.
unfoldable pub has_duplicates : List Record → List Record → Bool
unfolding sent_to
has_duplicates all [] = false
has_duplicates all (r ∷ rs) =
    (not (str_eq r.to_address "") && ltb 1 (sent_to r.to_address all)) || has_duplicates all rs

-- `by_status["SUCCESS"]`
unfoldable pub confirmed : (String → Reply Info) → List Record → ℕ
unfolding verify_txid_on_chain
confirmed node [] = 0
confirmed node (r ∷ rs) =
    (if str_eq (verify_txid_on_chain (node r.txid)) "SUCCESS" then 1 else 0) + confirmed node rs

-- The audit record, where there is one: how many txids were checked, and whether all was well.
pub record Summary : Type 0 where
  pub checked : ℕ
  pub is_ok : Bool

unfoldable pub summarise : (String → Reply Info) → List Record → Option Summary
unfolding has_duplicates confirmed
summarise node [] = none
summarise node (r ∷ rs) =
    let found = r ∷ rs in
    some (record {
      checked = length found;
      is_ok = not (has_duplicates found found) && confirmed node found == length found;
    })

-- `run_startup_check` with AUDIT_LOG_FILE set; `start` is midnight in Moscow.
unfoldable pub run_startup_check : ℕ → (String → Reply Info) → List Record → Option Summary
unfolding summarise successes
run_startup_check start node rs = summarise node (successes start rs)
