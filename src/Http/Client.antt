-- ===== src/Http/Client.antt =====
-- `client_address` of skr_crypto/server/net.py.
use Prim.Native.Char.{code}
use skr_crypto.Prelude.Chars.{is_space}
use skr_crypto.Prelude.{
  String, Bool, ◌||◌, not, Option, none, some, List, any, str_eq, ◌==◌, if◌then◌else◌,
}

-- `request.client.host`, and the X-Forwarded-For header, "" where it is missing.
pub record Peer : Type 0 where
  pub host : Option String
  pub forwarded_for : String

lstrip : String → String
unfolding is_space
lstrip String.[] = ""
lstrip (String.◌∷◌ c s) = let rest = lstrip s in if is_space (code c) then rest else String.◌∷◌ c s

rstrip : String → String
unfolding is_space
rstrip String.[] = ""
rstrip (String.◌∷◌ c s) =
    let rest = rstrip s in
    if str_eq rest "" then if is_space (code c) then "" else String.◌∷◌ c "" else String.◌∷◌ c rest

-- `s.strip()`
unfoldable pub strip : String → String
unfolding lstrip rstrip
strip s = lstrip (rstrip s)

-- `s.split(",", 1)[0]`
unfoldable pub first_hop : String → String
first_hop String.[] = ""
first_hop (String.◌∷◌ c s) =
    let rest = first_hop s in if code c == b',' then "" else String.◌∷◌ c rest

abbrev pub or_else : String → String → String
or_else s d = if str_eq s "" then d else s

abbrev pub is_trusted : List String → String → Bool
is_trusted proxies host = any (λ p. str_eq p host) proxies

unfoldable pub client_address : List String → Peer → String
unfolding strip first_hop
client_address proxies peer = elim peer.host [
  | none ↦ "unknown"
  | some direct ↦
      if str_eq direct "unknown" || not (is_trusted proxies direct)
      then direct
      else or_else (strip (first_hop (strip peer.forwarded_for))) direct
]
