-- ===== src/Receipts/Classify.antt =====
-- The status codes and `_classify_receipt` of skr_crypto/server/receipt_poller.py.
use skr_crypto.Exceptions.{Exc, Reply, returned, raised}
use skr_crypto.Prelude.Text.{codes, mentions_lower}
use skr_crypto.Prelude.{
  ℕ, zero, suc, ◌+◌, ◌-◌, String, Bool, true, false, ◌&&◌, ◌||◌, Option, none, some, List, [], ◌∷◌,
  map, leb, ◌==◌, str_eq, if◌then◌else◌,
}

-- The members of TERMINAL_STATUSES, then those of RETRY_STATUSES, then any other text.
pub data Status : Type 0 where
  success out_of_energy revert bad_jump_destination out_of_time stack_too_small stack_too_large :
      Status
  illegal_operation stack_overflow jvm_stack_over_flow transfer_failed unknown giveup : Status
  not_found rpc_error pending : Status
  other : List ℕ → Status

-- `status in TERMINAL_STATUSES`
abbrev pub is_terminal : Status → Bool
is_terminal not_found = false
is_terminal rpc_error = false
is_terminal pending = false
is_terminal (other text) = false
is_terminal _ = true

-- `status in RETRY_STATUSES`
abbrev pub is_retry : Status → Bool
is_retry not_found = true
is_retry rpc_error = true
is_retry pending = true
is_retry _ = false

-- The names of the codes.
abbrev statuses : List (String × Status)
statuses =
    ("SUCCESS", success)
    ∷ ("OUT_OF_ENERGY", out_of_energy)
    ∷ ("REVERT", revert)
    ∷ ("BAD_JUMP_DESTINATION", bad_jump_destination)
    ∷ ("OUT_OF_TIME", out_of_time)
    ∷ ("STACK_TOO_SMALL", stack_too_small)
    ∷ ("STACK_TOO_LARGE", stack_too_large)
    ∷ ("ILLEGAL_OPERATION", illegal_operation)
    ∷ ("STACK_OVERFLOW", stack_overflow)
    ∷ ("JVM_STACK_OVER_FLOW", jvm_stack_over_flow)
    ∷ ("TRANSFER_FAILED", transfer_failed)
    ∷ ("UNKNOWN", unknown)
    ∷ ("GIVEUP", giveup)
    ∷ ("NOT_FOUND", not_found)
    ∷ ("RPC_ERROR", rpc_error)
    ∷ ("PENDING", pending)
    ∷ []

-- `str.upper`, on ASCII letters: the codes are ASCII.
upper : List ℕ → List ℕ
upper = map (λ c. if leb b'a' c && leb c b'z' then c - 32 else c)

same_codes : List ℕ → List ℕ → Bool
same_codes [] [] = true
same_codes (c ∷ s) (d ∷ t) = c == d && same_codes s t
same_codes _ _ = false

find_status : List ℕ → List (String × Status) → Status
unfolding codes same_codes
find_status text [] = other text
find_status text ((name, s) ∷ rest) =
    let r = find_status text rest in if same_codes (codes name) text then s else r

-- The status with the text `explicit.upper()`.
unfoldable pub parse_status : String → Status
unfolding upper find_status codes
parse_status explicit = find_status (upper (codes explicit)) statuses

-- A value under "blockNumber" or "block_number": None, an int, or a text that `int` refuses.
pub data BlockField : Type 0 where
  missing unreadable : BlockField
  number : ℕ → BlockField

-- A dict that `get_transaction_info` returns, with "result" of its "receipt".
pub record Info : Type 0 where
  pub block_number : BlockField
  pub block_number_alt : BlockField
  pub result : Option String

to_int : BlockField → Option ℕ
to_int (number n) = some n
to_int _ = none

-- `info.get("blockNumber") or info.get("block_number")`
read_block : BlockField → BlockField → Option ℕ
unfolding to_int
read_block missing alt = to_int alt
read_block (number zero) alt = to_int alt
read_block (number (suc n)) alt = some (n + 1)
read_block unreadable alt = none

-- The texts of `last_error`.
pub data PollError : Type 0 where
  rpc : Exc → PollError
  gave_up : PollError

pub record Verdict : Type 0 where
  pub status : Status
  pub block : Option ℕ
  pub error : Option PollError

-- `explicit and explicit not in ("SUCCESS",)`
failure_code : Option String → Option Status
unfolding parse_status
failure_code none = none
failure_code (some explicit) =
    if str_eq explicit "" || str_eq explicit "SUCCESS" then none else some (parse_status explicit)

classify_info : Option Status → Option ℕ → Verdict
classify_info (some s) block = record { status = s; block = block; error = none }
classify_info none (some b) = record { status = success; block = some b; error = none }
classify_info none none = record { status = pending; block = none; error = none }

-- `none` is a falsy answer.
unfoldable pub classify_receipt : Reply (Option Info) → Verdict
unfolding read_block failure_code classify_info
classify_receipt (raised e) =
    if mentions_lower "not found" e.text || mentions_lower "transactionnotfound" e.class_name
    then record { status = not_found; block = none; error = none }
    else record { status = rpc_error; block = none; error = some (rpc e) }
classify_receipt (returned none) = record { status = not_found; block = none; error = none }
classify_receipt (returned (some info)) =
    classify_info (failure_code info.result) (read_block info.block_number info.block_number_alt)
