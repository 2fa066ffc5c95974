-- ===== src/Webhooks/Tests.antt =====
-- Signatures and rows of webhooks on small inputs.
use skr_crypto.Deliveries.{empty}
use skr_crypto.Exceptions.{returned}
use skr_crypto.Webhooks.{
  Config, State, init_webhooks, enqueue_event_for_delivery, shutdown_webhooks,
}
use skr_crypto.Webhooks.Signature.{sign_payload, verify_signature, distance}
use skr_crypto.Webhooks.Signature.RoundTrip.{
  IsHex, verify_signature-sign_payload, verify_signature-same_digest,
}
use skr_crypto.Prelude.Chars.{Chars, valid, invalid, type_error}
use skr_crypto.Prelude.Integers.{pos}
use skr_crypto.Prelude.Text.{codes}
use skr_crypto.Prelude.{
  ℕ, ◌*◌, ◌≤◌, Option, none, some, [], ◌∷◌, ◌++◌, ◌≡◌, refl, inr, arith, All, length, ◌%◌, ◌+◌,
}

-- A stand-in for HMAC: one hexadecimal digit that depends on the lengths.
abbrev digit_of : Chars → Chars → Chars
digit_of key message = (97 + (length key + length message) % 6) ∷ []

digit_of-IsHex : (key message : Chars) → All IsHex (digit_of key message)
digit_of-IsHex key message = (inr (omega arith, omega arith), tt)

abbrev body : Chars
body = b'{' ∷ b'}' ∷ []

header_text : sign_payload digit_of (b'k' ∷ []) (pos 12) body ≡ codes "t=12,v1=a"
unfolding sign_payload codes skr_crypto.Prelude.Chars.decimal
header_text = refl

-- A header with blanks, a repeated key, and one that is no number.
blanks : verify_signature digit_of (b'k' ∷ []) (codes " t = 7 , t=12,v1=a") body 300 12000 ≡ valid
unfolding verify_signature codes skr_crypto.Prelude.Chars.split skr_crypto.Prelude.Chars.split_once
    skr_crypto.Prelude.Chars.chars_eq skr_crypto.Prelude.Chars.strip
    skr_crypto.Prelude.Chars.is_space skr_crypto.Prelude.Integers.read_int
    skr_crypto.Prelude.Chars.read_digits distance skr_crypto.Prelude.Chars.compare_digest
    skr_crypto.Webhooks.Signature.digest skr_crypto.Prelude.Chars.decimal
blanks = refl

no_number : verify_signature digit_of (b'k' ∷ []) (codes "t=x,v1=a") body 300 12000 ≡ invalid
unfolding verify_signature codes skr_crypto.Prelude.Chars.split skr_crypto.Prelude.Chars.split_once
    skr_crypto.Prelude.Chars.chars_eq skr_crypto.Prelude.Chars.strip
    skr_crypto.Prelude.Chars.is_space skr_crypto.Prelude.Integers.read_int
    skr_crypto.Prelude.Chars.read_digits
no_number = refl

not_ascii : verify_signature digit_of (b'k' ∷ []) (codes "t=12,v1=é") body 300 12000 ≡ type_error
unfolding verify_signature codes skr_crypto.Prelude.Chars.split skr_crypto.Prelude.Chars.split_once
    skr_crypto.Prelude.Chars.chars_eq skr_crypto.Prelude.Chars.strip
    skr_crypto.Prelude.Chars.is_space skr_crypto.Prelude.Integers.read_int
    skr_crypto.Prelude.Chars.read_digits distance skr_crypto.Prelude.Chars.compare_digest
    skr_crypto.Webhooks.Signature.digest skr_crypto.Prelude.Chars.decimal
not_ascii = refl

too_old : verify_signature digit_of (b'k' ∷ []) (codes "t=12,v1=a") body 300 312001 ≡ invalid
unfolding verify_signature codes skr_crypto.Prelude.Chars.split skr_crypto.Prelude.Chars.split_once
    skr_crypto.Prelude.Chars.chars_eq skr_crypto.Prelude.Chars.strip
    skr_crypto.Prelude.Chars.is_space skr_crypto.Prelude.Integers.read_int
    skr_crypto.Prelude.Chars.read_digits distance
too_old = refl

verify_signature-sign_payload_example :
    verify_signature digit_of
      (b'k' ∷ [])
      (sign_payload digit_of (b'k' ∷ []) (pos 12) body)
      body
      300
      12500
    ≡ valid
unfolding distance
verify_signature-sign_payload_example =
    verify_signature-sign_payload digit_of digit_of-IsHex b'k' [] 12 body 300 12500 (omega arith)

verify_signature-same_digest_example :
    (distance 12500 (pos 12) ≤ 300 * 1000)
    × (digit_of (b'k' ∷ []) (codes "12" ++ b'.' ∷ b'[' ∷ b']' ∷ [])
        ≡ digit_of (b'k' ∷ []) (codes "12" ++ b'.' ∷ body))
unfolding verify_signature sign_payload skr_crypto.Prelude.Chars.split
    skr_crypto.Prelude.Chars.decimal skr_crypto.Prelude.Chars.split_once
    skr_crypto.Prelude.Chars.chars_eq skr_crypto.Prelude.Chars.strip
    skr_crypto.Prelude.Chars.is_space skr_crypto.Prelude.Integers.read_int
    skr_crypto.Prelude.Chars.read_digits distance skr_crypto.Prelude.Chars.compare_digest codes
verify_signature-same_digest_example =
    verify_signature-same_digest digit_of digit_of-IsHex (b'k' ∷ []) 12 body (b'[' ∷ b']' ∷ []) 300
      12500 refl

abbrev config : Config
config = record {
  database = empty;
  urls = "u" ∷ "v" ∷ [];
  signing_secret = "s";
  event_filter = "SEND_SUCCESS" ∷ [];
  backoff_schedule = 0 ∷ [];
}

abbrev off : State
off = record { store = none; worker = none; event_filter = []; target_urls = [] }

-- A secret is required.
unsigned : init_webhooks (record config { signing_secret = "" }) off ≡ off
unfolding init_webhooks
unsigned = refl

-- A record that the filter does not name adds nothing.
filtered :
    let s = init_webhooks config off in
    enqueue_event_for_delivery (λ n. 1) 4 "SEND_FAILED" (returned "{}") s ≡ s
unfolding init_webhooks enqueue_event_for_delivery
filtered = refl

rows_added : State → Option ℕ
rows_added s = elim s.store [ none ↦ none | some t ↦ some (length t.rows) ]

one_row_each :
    rows_added (
      enqueue_event_for_delivery
        (λ n. 1)
        4
        "SEND_SUCCESS"
        (returned "{}")
        (init_webhooks config off))
    ≡ some 2
unfolding rows_added init_webhooks enqueue_event_for_delivery skr_crypto.Webhooks.enqueue_urls
    skr_crypto.Deliveries.enqueue
one_row_each = refl

stopped :
    shutdown_webhooks (record off { event_filter = "x" ∷ [] })
    ≡ record off { event_filter = "x" ∷ [] }
unfolding shutdown_webhooks
stopped = refl
