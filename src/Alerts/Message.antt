-- ===== src/Alerts/Message.antt =====
-- `_is_sanctions_hit`, `_meets_threshold` and the text of an alert in skr_crypto/server/alerts.py.
pub mod Escapes
use skr_crypto.Models.{Decimal, numerator, denominator}
use skr_crypto.Prelude.Chars.{Chars, strip}
use skr_crypto.Prelude.Text.{codes, mentions_lower}
use skr_crypto.Prelude.{
  ℕ, ◌*◌, String, Bool, false, ◌&&◌, Option, none, some, List, [], ◌∷◌, ◌++◌, length, take, str_eq,
  leb, ◌==◌, if◌then◌else◌,
}

-- The keys of an audit record that alerts read, by the counter of its id; "" is also a missing key.
pub record Entry : Type 0 where
  pub id : ℕ
  pub timestamp : String
  pub event : String
  pub wallet : String
  pub from_address : String
  pub to_address : String
  pub amount : String
  pub asset : String
  pub txid : String
  pub idempotency_key : String
  pub token_id : String
  pub result : String
  pub details : String

-- `Decimal(text)` where it is finite and not negative, `str` of a Decimal, and the present time as
-- `datetime.now(UTC).isoformat()`.
pub record Reading : Type 0 where
  pub parse : String → Option Decimal
  pub show : Decimal → Chars
  pub now_text : Chars

unfoldable pub is_sanctions_hit : Entry → Bool
is_sanctions_hit e = str_eq e.event "SEND_REJECTED" && mentions_lower "sanctions" e.details

-- `a >= b`
unfoldable pub at_least : Decimal → Decimal → Bool
at_least a b = leb (numerator b * denominator a) (numerator a * denominator b)

-- `entry.get(key) or default`
abbrev pub or_default : String → String → String
or_default s d = if str_eq s "" then d else s

parsed_at_least : Option Decimal → Decimal → Bool
unfolding at_least
parsed_at_least none limit = false
parsed_at_least (some d) limit = at_least d limit

unfoldable pub meets_threshold : Reading → Entry → Option Decimal → Bool
unfolding parsed_at_least
meets_threshold read e none = false
meets_threshold read e (some limit) =
    str_eq e.event "SEND_SUCCESS" && parsed_at_least (read.parse (or_default e.amount "0")) limit

-- `_short`, to 200 characters and an ellipsis.
unfoldable pub short : String → Chars
short value =
    let s = strip (codes value) in if leb (length s) 200 then s else take 199 s ++ 8230 ∷ []

-- `s.replace(c, t)` for a single character.
unfoldable pub replace : ℕ → Chars → Chars → Chars
replace c t [] = []
replace c t (d ∷ s) = let rest = replace c t s in if d == c then t ++ rest else d ∷ rest

-- `_esc`
unfoldable pub esc : Chars → Chars
unfolding replace
esc s = replace b'>' (codes "&gt;") (replace b'<' (codes "&lt;") (replace b'&' (codes "&amp;") s))

-- The sign in front of the title, and the title.
high_value_title : Reading → Entry → Option Decimal → Chars × Chars
high_value_title read e none = (8505 ∷ 65039 ∷ [], codes (or_default e.event "?"))
high_value_title read e (some limit) =
    if meets_threshold read e (some limit)
    then (codes "💰", codes "HIGH-VALUE SEND ≥ " ++ read.show limit ++ codes " USDT")
    else (8505 ∷ 65039 ∷ [], codes (or_default e.event "?"))

unfoldable pub title : Reading → Entry → Option Decimal → Chars × Chars
unfolding high_value_title is_sanctions_hit
title read e threshold =
    if is_sanctions_hit e
    then (codes "🚨", codes "OFAC SANCTIONS REJECT")
    else if str_eq e.event "SEND_FAILED"
    then (codes "❌", codes "SEND FAILED")
    else if str_eq e.event "SEND_REJECTED"
    then (codes "⛔", codes "SEND REJECTED")
    else if str_eq e.event "WEBHOOK_GIVEUP"
    then (9888 ∷ 65039 ∷ [], codes "WEBHOOK GIVEUP")
    else high_value_title read e threshold

-- A line "<label><code>value</code>" for a value that is there.
code_line : String → String → List Chars
unfolding esc
code_line label value =
    if str_eq value ""
    then []
    else (codes label ++ codes "<code>" ++ esc (codes value) ++ codes "</code>") ∷ []

amount_line : Entry → List Chars
unfolding esc
amount_line e =
    if str_eq e.amount ""
    then []
    else (codes "Amount: <b>"
        ++ esc (codes e.amount)
        ++ 32 ∷ (esc (codes (or_default e.asset "USDT")) ++ codes "</b>"))
      ∷ []

details_line : Entry → List Chars
unfolding esc short
details_line e =
    if str_eq e.details "" then [] else (codes "Details: " ++ esc (short e.details)) ∷ []

time_line : Reading → Entry → Chars
unfolding esc
time_line read e =
    codes "<i>"
    ++ esc (if str_eq e.timestamp "" then read.now_text else codes e.timestamp)
    ++ codes "</i>"

unfoldable pub lines : Reading → Entry → Option Decimal → List Chars
unfolding title code_line amount_line details_line time_line
lines read e threshold =
    let (prefix, text) = title read e threshold in
    (prefix ++ codes " <b>" ++ esc text ++ codes "</b>")
    ∷ []
    ∷ (code_line "Wallet: " e.wallet
        ++ code_line "From:   " e.from_address
        ++ code_line "To:     " e.to_address
        ++ amount_line e
        ++ code_line "Txid:   " e.txid
        ++ code_line "Key:    " e.idempotency_key
        ++ code_line "Token:  " e.token_id
        ++ code_line "Result: " e.result
        ++ details_line e
        ++ [] ∷ time_line read e ∷ [])

-- `"\n".join(lines)`
unfoldable pub join_lines : List Chars → Chars
join_lines [] = []
join_lines (l ∷ []) = l
join_lines (l ∷ m ∷ ls) = l ++ 10 ∷ join_lines (m ∷ ls)

unfoldable pub format_message : Reading → Entry → Option Decimal → Chars
unfolding lines join_lines
format_message read e threshold = join_lines (lines read e threshold)
