-- ===== src/Sanctions.antt =====
-- skr_crypto/server/sanctions.py: the module's state and `load`, `contains`, `_parse`. The download,
-- the cache file and Python's `splitlines` and `strip` are arguments.
use skr_crypto.Exceptions.{Reply, returned, raised}
use skr_crypto.Prelude.Text.{starts_with}
use skr_crypto.Prelude.{
  ℕ, String, Bool, true, false, ◌||◌, not, Option, none, some, List, [], ◌∷◌, ◌≡◌, ◌≢◌, refl, arith,
  str_eq, eq_iff, eq_refl, ◌&&◌, String-cases, inl, inr, length, if◌then◌else◌,
}

-- `_loaded_from`
pub data Origin : Type 0 where
  not_loaded url cache empty override : Origin

-- `_addresses` and `_loaded_from`.
pub record State : Type 0 where
  pub addresses : Option (List String)
  pub loaded_from : Origin

abbrev pub initial : State
initial = record { addresses = none; loaded_from = not_loaded }

-- `address in _addresses`
unfoldable pub member : String → List String → Bool
member a [] = false
member a (x ∷ xs) = str_eq a x || member a xs

-- `out.add(line)`
unfoldable pub add : String → List String → List String
add a xs = if member a xs then xs else a ∷ xs

-- A line that `_parse` takes: not blank, and no comment.
unfoldable pub keeps_line : String → Bool
keeps_line line = not (str_eq line "" || starts_with line "#")

-- The lines are already stripped.
unfoldable pub parse : List String → List String
unfolding keeps_line add
parse [] = []
parse (line ∷ lines) = let rest = parse lines in if keeps_line line then add line rest else rest

-- What the sources have for `load`: the text's stripped lines, or an exception; the cache is `none`
-- where the file does not exist.
pub record Sources : Type 0 where
  pub refresh : Bool
  pub download : Reply (List String)
  pub cached : Option (Reply (List String))

loaded : Origin → List String → ℕ × State
loaded origin lines =
    let xs = parse lines in (length xs, record { addresses = some xs; loaded_from = origin })

-- The third case of `load`.
no_source : ℕ × State
no_source = (0, record { addresses = some []; loaded_from = empty })

from_cache : Option (Reply (List String)) → ℕ × State
unfolding loaded no_source
from_cache none = no_source
from_cache (some (returned lines)) = loaded cache lines
from_cache (some (raised e)) = no_source

from_url : Reply (List String) → Option (Reply (List String)) → ℕ × State
unfolding loaded from_cache
from_url (returned lines) cached = loaded url lines
from_url (raised e) cached = from_cache cached

-- The result replaces both globals, on every path.
unfoldable pub load : Sources → ℕ × State
unfolding from_url from_cache
load s = if s.refresh then from_url s.download s.cached else from_cache s.cached

unfoldable pub contains : String → State → Option Bool
contains address s = elim s.addresses [ none ↦ none | some xs ↦ some (member address xs) ]

-- `status`: loaded, origin and size.
unfoldable pub status : State → Bool × Origin × ℕ
status s = elim s.addresses [
  | none ↦ (false, s.loaded_from, 0)
  | some xs ↦ (true, s.loaded_from, length xs)
]

member-add : (a x : String) (xs : List String) → member a (add x xs) ≡ (str_eq a x || member a xs)
unfolding member add
member-add a x xs = ground (arith, eq_iff a x)

-- The parsed list holds a text exactly when the text is a line of the file that is neither blank
-- nor a comment.
pub member-parse :
    (a : String) (lines : List String) → member a (parse lines) ≡ (member a lines && keeps_line a)
unfolding member parse
member-parse a [] = refl
member-parse a (x ∷ xs) = elim (String-cases a x) [
  | inl (e, t) ↦ rw e (ground (arith, eq_refl x, member-add x x (parse xs), member-parse x xs))
  | inr (n, t) ↦ ground (arith, member-add a x (parse xs), member-parse a xs)
]

-- Once `load` has run, whatever the sources gave, `contains` never says that the list is not loaded.
pub contains-load-ne-none : (a : String) (s : Sources) → contains a (load s).1 ≢ none
unfolding contains load
contains-load-ne-none a s = ground arith
