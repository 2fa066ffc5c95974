-- ===== src/Keystore/Entries.antt =====
-- The edits of a keystore as edits of the list of its entries.
use skr_crypto.Keystore.{
  general, name_conflict, Result, ok, err, Entry, is_private_key, has_name, without, first_of,
  renamed,
}
use skr_crypto.Keystore.Edits.{Valid}
use mathlib.Core.List.{filter_map, head?}
use skr_crypto.Prelude.{
  Bool-cases, none, map, inl, inr, ◌≤◌, String, true, false, Option, some, List, [], ◌∷◌, ◌++◌, ◌≡◌,
  refl, arith, length, str_eq, eq_iff, ◌==◌, if◌then◌else◌,
}

pub data Edit : Type 0 where
  adds : Entry → Edit
  removes : String → Edit
  renames : String → String → Edit

-- An entry of another name than `n`, and an entry of that name.
abbrev pub other : String → Entry → Option Entry
other n e = if str_eq e.name n then none else some e

abbrev named : String → Entry → Option Entry
named n e = if str_eq e.name n then some e else none

abbrev with_name : String → String → Entry → Entry
with_name old new e = if str_eq e.name old then record e { name = new } else e

-- The edits on a list of entries, and the entry that is gone, if any: a new entry stands last, a
-- removal keeps exactly the entries of other names, and a renaming changes nothing but that name,
-- whatever the list around it.
unfoldable pub edit_list : Edit → List Entry → Result (List Entry × Option Entry)
edit_list (adds e) es = if has_name e.name es then err name_conflict else ok (es ++ e ∷ [], none)
edit_list (removes n) es =
    if has_name n es
    then ok (filter_map (other n) es, head? (filter_map (named n) es))
    else err general
edit_list (renames old new) es =
    if has_name new es
    then err name_conflict
    else if has_name old es
    then ok (map (with_name old new) es, none)
    else err general

pub without-others : (n : String) (es : List Entry) → without n es ≡ filter_map (other n) es
unfolding without filter_map
without-others n [] = refl
without-others n (e ∷ es) = ground (arith, without-others n es)

pub first_of-head : (n : String) (es : List Entry) → first_of n es ≡ head? (filter_map (named n) es)
unfolding first_of filter_map
first_of-head n [] = refl
first_of-head n (e ∷ es) = ground (arith, first_of-head n es)

map-with_name :
    (old new : String) (es : List Entry) → has_name old es ≡ false → map (with_name old new) es ≡ es
map-with_name old new [] h = refl
map-with_name old new (e ∷ es) h = ground (arith, map-with_name old new es)

-- In a list whose names differ, renaming the first entry of a name renames every one.
pub renamed-map :
    (old new : String) (es : List Entry)
    → Valid es
    → renamed old new es ≡ map (with_name old new) es
unfolding renamed
renamed-map old new [] v = refl
renamed-map old new (e ∷ es) v =
    ground (arith, renamed-map old new es, map-with_name old new es, eq_iff e.name old)

pub first_of-found :
    (n : String) (es : List Entry) → has_name n es ≡ true → (e : Entry) × (first_of n es ≡ some e)
unfolding first_of
first_of-found n [] h = absurd (ground arith)
first_of-found n (e ∷ es) h = elim (Bool-cases (str_eq e.name n)) [
  | inl same ↦ (e, rw same refl)
  | inr differs ↦ let r = first_of-found n es (ground arith) in (r.0, rw differs (r.1))
]

-- A new entry has a name and a private key, a new name is not empty.
abbrev pub IsAllowed : Edit → Type 0
IsAllowed (adds e) = (str_eq e.name "" ≡ false) × (is_private_key e.raw_key ≡ true)
IsAllowed (removes n) = Unit {0}
IsAllowed (renames old new) = str_eq new "" ≡ false

has_name-append :
    (n : String) (es : List Entry) (e : Entry)
    → has_name n es ≡ false
    → str_eq e.name n ≡ false
    → has_name n (es ++ e ∷ []) ≡ false
has_name-append n [] e h k = ground (arith, k)
has_name-append n (d ∷ es) e h k = ground (arith, has_name-append n es e)

pub append-Valid :
    (es : List Entry) (e : Entry)
    → Valid es
    → IsAllowed (adds e)
    → has_name e.name es ≡ false
    → Valid (es ++ e ∷ [])
append-Valid [] e v a h = (a.0, a.1, refl, tt)
append-Valid (d ∷ es) e v a h = ground (
  arith,
  append-Valid es e,
  has_name-append d.name es e,
  eq_iff e.name d.name,
  eq_iff d.name e.name,
)

has_name-without :
    (m n : String) (es : List Entry) → has_name m es ≡ false → has_name m (without n es) ≡ false
unfolding without
has_name-without m n [] h = refl
has_name-without m n (e ∷ es) h = ground (arith, has_name-without m n es)

pub without-Valid : (n : String) (es : List Entry) → Valid es → Valid (without n es)
unfolding without
without-Valid n [] v = tt
without-Valid n (e ∷ es) v = ground (arith, without-Valid n es, has_name-without e.name n es)

length-without_le : (n : String) (es : List Entry) → length (without n es) ≤ length es
unfolding without
length-without_le n [] = omega arith
length-without_le n (e ∷ es) = ground (arith, length-without_le n es)

-- The test of `remove_wallet` on the lengths.
pub length-without :
    (n : String) (es : List Entry)
    → (length (without n es) == length es) ≡ (if has_name n es then false else true)
unfolding without
length-without n [] = refl
length-without n (e ∷ es) = ground (arith, length-without n es, length-without_le n es)

has_name-renamed :
    (m old new : String) (es : List Entry)
    → has_name m es ≡ false
    → str_eq new m ≡ false
    → has_name m (renamed old new es) ≡ false
unfolding renamed
has_name-renamed m old new [] h k = refl
has_name-renamed m old new (e ∷ es) h k = ground (arith, has_name-renamed m old new es)

pub renamed-Valid :
    (old new : String) (es : List Entry)
    → Valid es
    → has_name new es ≡ false
    → str_eq new "" ≡ false
    → Valid (renamed old new es)
unfolding renamed
renamed-Valid old new [] v h k = tt
renamed-Valid old new (e ∷ es) v h k = ground (
  arith,
  renamed-Valid old new es,
  has_name-renamed e.name old new es,
  eq_iff new e.name,
  eq_iff e.name new,
)
