-- ===== src/Webhooks/Signature/RoundTrip.antt =====
-- Signing a body and checking the header that results.
use skr_crypto.Prelude.Chars.{
  compare_digest, compare_digest_same, compare_digest-valid, is_empty, valid, Chars, chars_eq,
  strip, strip_plain, is_space, IsPlain, IsDigit, split, split-append, split_plain, split_once,
  decimal, decimal-IsDigit,
}
use skr_crypto.Prelude.Integers.{ℤ, pos, show, All-mono, strip-decimal, read_int-decimal}
use skr_crypto.Webhooks.Signature.{
  distance, t_key, v1_key, value, part_value, digest, sign_payload, check_parts, verify_signature,
}
use skr_crypto.Prelude.{
  ℕ, ◌*◌, ◌≤◌, ◌<◌, ◌≢◌, false, some, List, [], ◌∷◌, ◌++◌, ◌≡◌, refl, ap, ◌∙◌, arith, All, ◌⊎◌, inl,
}

-- A lower-case hexadecimal digit.
abbrev pub IsHex : ℕ → Type 0
IsHex c = ((48 ≤ c) × (c ≤ 57)) ⊎ ((97 ≤ c) × (c ≤ 102))

hex-IsPlain : (c : ℕ) → IsHex c → IsPlain c
unfolding is_space
hex-IsPlain c h = ground arith

digit-IsHex : (c : ℕ) → IsDigit c → IsHex c
digit-IsHex c h = inl h

hex-comma : (c : ℕ) → IsHex c → c ≢ b','
hex-comma c h = ground arith

hex-ascii : (c : ℕ) → IsHex c → c < 128
hex-ascii c h = ground arith

-- Secret, message and time of a signature; the digest is written in lower-case hexadecimal.
module _ (hmac : Chars → Chars → Chars)
    (hex : (key message : Chars) → All IsHex (hmac key message)) where
  digest-IsHex : (secret : Chars) (ts : ℤ) (body : Chars) → All IsHex (digest hmac secret ts body)
  unfolding digest
  digest-IsHex secret ts body = hex secret _

  split-sign_payload :
      (secret : Chars) (n : ℕ) (body : Chars)
      → split b',' (sign_payload hmac secret (pos n) body)
        ≡ (b't' ∷ b'=' ∷ decimal n) ∷ (b'v' ∷ b'1' ∷ b'=' ∷ digest hmac secret (pos n) body) ∷ []
  unfolding sign_payload show
  split-sign_payload secret n body =
      let sig = digest hmac secret (pos n) body in
      let no_comma = All-mono hex-comma in
      let digits = All-mono digit-IsHex (decimal n) (decimal-IsDigit n) in
      split-append b',' (b't' ∷ b'=' ∷ decimal n) (b'v' ∷ b'1' ∷ b'=' ∷ sig)
        (omega arith, (omega arith, no_comma (decimal n) digits))
      ∙ ap (λ (ps : List Chars). (b't' ∷ b'=' ∷ decimal n) ∷ ps)
          (split_plain b',' (b'v' ∷ b'1' ∷ b'=' ∷ sig) (
            omega arith,
            (omega arith, (omega arith, no_comma sig (digest-IsHex secret (pos n) body))),
          ))

  parts_t :
      (secret : Chars) (n : ℕ) (body : Chars)
      → value t_key (split b',' (sign_payload hmac secret (pos n) body)) ≡ some (decimal n)
  unfolding value part_value split_once chars_eq strip is_space
  parts_t secret n body = rw (split-sign_payload secret n body) (ap some (strip-decimal n))

  parts_v1 :
      (secret : Chars) (n : ℕ) (body : Chars)
      → value v1_key (split b',' (sign_payload hmac secret (pos n) body))
        ≡ some (digest hmac secret (pos n) body)
  unfolding value part_value split_once chars_eq strip is_space
  parts_v1 secret n body = rw (split-sign_payload secret n body) (
      ap some (
        strip_plain (digest hmac secret (pos n) body) (
          All-mono hex-IsPlain (digest hmac secret (pos n) body)
            (digest-IsHex secret (pos n) body))))

  compare_digest-same :
      (secret : Chars) (ts : ℤ) (body : Chars)
      → compare_digest (digest hmac secret ts body) (digest hmac secret ts body) ≡ valid
  compare_digest-same secret ts body =
      let sig = digest hmac secret ts body in
      compare_digest_same sig (All-mono hex-ascii sig (digest-IsHex secret ts body))

  header-nonempty :
      (secret : Chars) (ts : ℤ) (body : Chars) → is_empty (sign_payload hmac secret ts body) ≡ false
  unfolding sign_payload
  header-nonempty secret ts body = refl

  -- A header that `sign_payload` made with a secret is accepted for the same body and secret while the
  -- clock is within the tolerance of its time, if HMAC digests are lower-case hexadecimal.
  pub verify_signature-sign_payload :
      (c : ℕ) (key : Chars) (n : ℕ) (body : Chars) (tolerance now : ℕ)
      → distance now (pos n) ≤ tolerance * 1000
      → let secret = c ∷ key in
        verify_signature hmac secret (sign_payload hmac secret (pos n) body) body tolerance now
        ≡ valid
  unfolding verify_signature check_parts
  verify_signature-sign_payload c key n body tolerance now h = ground (
    arith,
    header-nonempty (c ∷ key) (pos n) body,
    parts_t (c ∷ key) n body,
    parts_v1 (c ∷ key) n body,
    read_int-decimal n,
    compare_digest-same (c ∷ key) (pos n) body,
  )

  -- A header that `sign_payload` made is accepted with a body, whatever body that is, only while the
  -- clock is within the tolerance, and only if the body's HMAC is the one of the body that was signed,
  -- both with the time that was signed.
  pub verify_signature-same_digest :
      (secret : Chars) (n : ℕ) (body other : Chars) (tolerance now : ℕ)
      → verify_signature hmac secret (sign_payload hmac secret (pos n) body) other tolerance now
        ≡ valid
      → (distance now (pos n) ≤ tolerance * 1000)
        × (hmac secret (show (pos n) ++ b'.' ∷ other) ≡ hmac secret (show (pos n) ++ b'.' ∷ body))
  unfolding verify_signature check_parts digest
  verify_signature-same_digest secret n body other tolerance now h = ground (
    arith,
    header-nonempty secret (pos n) body,
    parts_t secret n body,
    parts_v1 secret n body,
    read_int-decimal n,
    compare_digest-valid (digest hmac secret (pos n) other) (digest hmac secret (pos n) body),
  )
