-- ===== src/TronClient/Retry.antt =====
-- `_with_retry` of skr_crypto/server/tron_client.py.
use skr_crypto.Exceptions.{Reply, returned, raised, is_transient_error}
use skr_crypto.Prelude.{
  ℕ, zero, suc, ◌+◌, ◌*◌, Bool, true, ◌&&◌, not, Option, none, some, List, [], ◌∷◌, ◌≡◌, arith, ltb,
  if◌then◌else◌,
}

abbrev pub max_retries : ℕ
max_retries = 3

abbrev pub retry_delay : ℕ
retry_delay = 2

module _ {A : Type 0} where
  -- The loop from `attempt` on; `fn n` is what the n-th call does. With it the waits between calls;
  -- `none` is a loop that ends with no call having returned or raised.
  unfoldable pub attempts : ℕ → ℕ → (ℕ → Reply A) → Option (Reply A) × List ℕ
  attempts zero attempt fn = (none, [])
  attempts (suc left) attempt fn =
      let rest = attempts left (attempt + 1) fn in
      elim (fn attempt) [
        | returned a ↦ (some (returned a), [])
        | raised e ↦
            if is_transient_error e && ltb attempt max_retries
            then (rest.0, (retry_delay * attempt) ∷ rest.1)
            else (some (raised e), [])
      ]

  unfoldable pub with_retry : (ℕ → Reply A) → Option (Reply A) × List ℕ
  with_retry fn = attempts max_retries 1 fn

  -- A call that ends the loop before the last attempt.
  abbrev pub settles : Reply A → Bool
  settles (returned a) = true
  settles (raised e) = not (is_transient_error e)

  -- The answer is that of the first of three calls that returns or raises something other than a
  -- transient error, and else that of the third; nothing is called after it.
  pub with_retry_lem :
      (fn : ℕ → Reply A)
      → with_retry fn ≡ (
          if settles (fn 1)
          then (some (fn 1), [])
          else if settles (fn 2)
          then (some (fn 2), 2 ∷ [])
          else (some (fn 3), 2 ∷ 4 ∷ []))
  unfolding with_retry attempts
  with_retry_lem fn = ground arith
