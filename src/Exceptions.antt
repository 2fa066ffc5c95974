-- ===== src/Exceptions.antt =====
-- Exceptions of third-party calls, as far as the program looks at them: their class name and their
-- text. `Reply` is a call that returns or raises.
use skr_crypto.Prelude.{String, Bool, true, false, ◌||◌, ◌≡◌, refl}
use skr_crypto.Prelude.Text.{mentions, mentions_lower}

pub record Exc : Type 0 where
  pub class_name : String
  pub text : String

pub data Reply (A : Type 0) : Type 0 where
  returned : A → Reply A
  raised : Exc → Reply A

-- The test for an account that the chain does not know, in risk.py and tron_client.py.
unfoldable pub is_not_found : Exc → Bool
unfolding mentions_lower
is_not_found e = mentions_lower "not found" e.text || mentions_lower "addressnotfound" e.class_name

-- `_is_transient_error` of tron_client.py.
unfoldable pub is_transient_error : Exc → Bool
unfolding mentions mentions_lower
is_transient_error e =
    mentions "429" e.text
    || mentions "Too Many Requests" e.text
    || (mentions "500" e.text
        || mentions "502" e.text
        || mentions "503" e.text
        || mentions "504" e.text)
    || (mentions_lower "timeout" e.class_name || mentions_lower "connection" e.class_name)
    || mentions_lower "timed out" e.text

read_timeout : is_transient_error (record { class_name = "ReadTimeout"; text = "" }) ≡ true
unfolding is_transient_error
read_timeout = refl

not_transient : is_transient_error (record { class_name = "ValueError"; text = "bad 404" }) ≡ false
unfolding is_transient_error
not_transient = refl

account_not_found : is_not_found (record { class_name = "AddressNotFound"; text = "x" }) ≡ true
unfolding is_not_found
account_not_found = refl
