-- ===== src/Webhooks/Signature.antt =====
-- `sign_payload` and `verify_signature` of skr_crypto/server/webhooks.py, on code points. The
-- hexadecimal HMAC-SHA256 of a key and a message is an argument; `time.time()` is in milliseconds.
pub mod RoundTrip
use skr_crypto.Prelude.Integers.{ℤ, pos, negsuc, show, read_int}
use skr_crypto.Prelude.Chars.{
  Check, invalid, compare_digest, is_empty, Chars, chars_eq, strip, split, split_once,
}
use skr_crypto.Prelude.{
  ℕ, ◌+◌, ◌-◌, ◌*◌, ◌||◌, Option, none, some, List, [], ◌∷◌, ◌++◌, ltb, if◌then◌else◌,
}

-- `abs(now - ts)`, in milliseconds.
unfoldable pub distance : ℕ → ℤ → ℕ
distance now (pos n) = (now - n * 1000) + (n * 1000 - now)
distance now (negsuc n) = now + (n + 1) * 1000

-- The value that `parts` has for a key: that of the last part with it.
part_value : Chars → Option (Chars × Chars) → Option Chars → Option Chars
part_value k none later = later
part_value k (some (j, v)) none = if chars_eq (strip j) k then some (strip v) else none
part_value k (some (j, v)) (some w) = some w

unfoldable pub value : Chars → List Chars → Option Chars
unfolding part_value
value k [] = none
value k (p ∷ ps) = part_value k (split_once b'=' p) (value k ps)

abbrev pub t_key : Chars
t_key = b't' ∷ []

abbrev pub v1_key : Chars
v1_key = b'v' ∷ b'1' ∷ []

-- `hmac.new(key, message, sha256).hexdigest()`
module _ (hmac : Chars → Chars → Chars) where
  -- Of the message "<timestamp>.<body>".
  unfoldable pub digest : Chars → ℤ → Chars → Chars
  unfolding show
  digest secret ts body = hmac secret (show ts ++ b'.' ∷ body)

  unfoldable pub sign_payload : Chars → ℤ → Chars → Chars
  unfolding digest show
  sign_payload secret ts body =
      b't' ∷ b'=' ∷ (show ts ++ b',' ∷ b'v' ∷ b'1' ∷ b'=' ∷ digest secret ts body)

  unfoldable pub check_parts : Chars → Chars → ℕ → ℕ → Option Chars → Option Chars → Check
  check_parts secret body now tolerance none v1 = invalid
  check_parts secret body now tolerance (some t) none = invalid
  check_parts secret body now tolerance (some t) (some v1) = elim (read_int t) [
    | none ↦ invalid
    | some ts ↦
        if ltb (tolerance * 1000) (distance now ts)
        then invalid
        else compare_digest (digest secret ts body) v1
  ]

  unfoldable pub verify_signature : Chars → Chars → Chars → ℕ → ℕ → Check
  unfolding check_parts value
  verify_signature secret header body tolerance now =
      let parts = split b',' header in
      if is_empty secret || is_empty header
      then invalid
      else check_parts secret body now tolerance (value t_key parts) (value v1_key parts)
