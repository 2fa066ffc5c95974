-- ===== src/Keystore/Refines.antt =====
-- Edits of the keystore file against edits of the list of its entries.
use skr_crypto.Keystore.{
  Bytes, general, name_conflict, Result, ok, err, Entry, File, document, missing, unsafe_mode,
  garbled, has_name, get_salt, read_document, load_keystore, save_keystore, opened, add_wallet,
  without, first_of, and_entry, remove_wallet, renamed, rename_wallet, bind,
}
use skr_crypto.Keystore.Edits.{Valid, load_keystore-Valid, load_keystore-save_keystore}
use skr_crypto.Prelude.{
  Bool-cases, none, inl, inr, ℕ, String, Option, some, List, [], ◌∷◌, ◌++◌, ◌≡◌, refl, arith,
  length, ◌==◌, if◌then◌else◌,
}
use skr_crypto.Keystore.Entries.{
  adds, removes, renames, Edit, edit_list, without-others, first_of-head, renamed-map,
  first_of-found, IsAllowed, append-Valid, without-Valid, length-without, renamed-Valid,
}

module _ (derive : Bytes → Bytes → Bytes) (encrypt : Bytes → Bytes → Bytes → String → Bytes)
    (decrypt : Bytes → Bytes → Bytes → String → Option Bytes)
    (decrypts : (key iv plain : Bytes) (name : String)
      → decrypt key iv (encrypt key iv plain name) name ≡ some plain) where
  -- The new file, and the entry that the call returns, if any.
  unfoldable pub edit_file : Edit → Bytes → (ℕ → Bytes) → File → Result (File × Option Entry)
  edit_file (adds e) passphrase ivs file =
      bind (add_wallet derive encrypt decrypt passphrase e ivs file) (λ f. ok (f, none))
  edit_file (removes n) passphrase ivs file =
      bind (remove_wallet derive encrypt decrypt passphrase n ivs file) (λ r. ok (r.0, some r.1))
  edit_file (renames old new) passphrase ivs file =
      bind (rename_wallet derive encrypt decrypt passphrase old new ivs file) (λ f. ok (f, none))

  opened-ok :
      {A : Type 0} (passphrase : Bytes) (file : File) (es : List Entry)
      (f : Bytes → List Entry → Result A)
      → load_keystore derive encrypt decrypt passphrase file ≡ ok es
      → (salt : Bytes) × (opened derive encrypt decrypt passphrase file f ≡ f salt es)
  unfolding opened get_salt load_keystore read_document
  opened-ok passphrase (document d) es f h = (d.salt, rw h refl)
  opened-ok passphrase missing es f h = absurd (ground arith)
  opened-ok passphrase unsafe_mode es f h = absurd (ground arith)
  opened-ok passphrase garbled es f h = absurd (ground arith)

  -- A file's result stands for a list's: it loads as the list and returns the same entry, or both fail
  -- alike.
  abbrev pub Stands :
      Bytes → Result (List Entry × Option Entry) → Result (File × Option Entry) → Type 0
  Stands passphrase (ok (es, gone)) r =
      (file : File) × (r ≡ ok (file, gone))
      × (load_keystore derive encrypt decrypt passphrase file ≡ ok es)
  Stands passphrase (err e) r = r ≡ err e

  saved-Stands :
      (passphrase salt : Bytes) (ivs : ℕ → Bytes) (es : List Entry)
      → Valid es
      → Stands passphrase
          (ok (es, none))
          (bind (save_keystore derive encrypt decrypt passphrase es salt ivs) (λ f. ok (f, none)))
  saved-Stands passphrase salt ivs es v =
      let s =
        load_keystore-save_keystore derive encrypt decrypt decrypts passphrase salt ivs es v in
      (s.0, rw (s.1) refl, s.2)

  -- The calls on a file that was opened.
  abbrev add_to : Entry → Bytes → (ℕ → Bytes) → Bytes → List Entry → Result File
  add_to e passphrase ivs salt es =
      if has_name e.name es
      then err name_conflict
      else save_keystore derive encrypt decrypt passphrase (es ++ e ∷ []) salt ivs

  abbrev remove_from : String → Bytes → (ℕ → Bytes) → Bytes → List Entry → Result (File × Entry)
  remove_from n passphrase ivs salt es =
      if length (without n es) == length es
      then err general
      else and_entry derive encrypt decrypt (first_of n es)
          (save_keystore derive encrypt decrypt passphrase (without n es) salt ivs)

  abbrev rename_in : String → String → Bytes → (ℕ → Bytes) → Bytes → List Entry → Result File
  rename_in old new passphrase ivs salt es =
      if has_name new es
      then err name_conflict
      else if has_name old es
      then save_keystore derive encrypt decrypt passphrase (renamed old new es) salt ivs
      else err general

  add_to-Stands :
      (e : Entry) (passphrase salt : Bytes) (ivs : ℕ → Bytes) (es : List Entry)
      → Valid es
      → IsAllowed (adds e)
      → Stands passphrase
          (edit_list (adds e) es)
          (bind (add_to e passphrase ivs salt es) (λ f. ok (f, none)))
  unfolding edit_list
  add_to-Stands e passphrase salt ivs es v a = elim (Bool-cases (has_name e.name es)) [
    | inl found ↦ rw found refl
    | inr new ↦ rw new (saved-Stands passphrase salt ivs (es ++ e ∷ []) (append-Valid es e v a new))
  ]

  remove_from-Stands :
      (n : String) (passphrase salt : Bytes) (ivs : ℕ → Bytes) (es : List Entry)
      → Valid es
      → Stands passphrase
          (edit_list (removes n) es)
          (bind (remove_from n passphrase ivs salt es) (λ r. ok (r.0, some r.1)))
  unfolding edit_list and_entry
  remove_from-Stands n passphrase salt ivs es v = elim (Bool-cases (has_name n es)) [
    | inr absent ↦ rw (length-without n es, absent) refl
    | inl found ↦
        let (e, first) = first_of-found n es found in
        let s =
          load_keystore-save_keystore derive encrypt decrypt decrypts passphrase salt ivs
            (without n es) (without-Valid n es v) in
        rw (length-without n es, found, ← first_of-head n es, ← without-others n es, first, s.1)
          (s.0, refl, s.2)
  ]

  rename_in-Stands :
      (old new : String) (passphrase salt : Bytes) (ivs : ℕ → Bytes) (es : List Entry)
      → Valid es
      → IsAllowed (renames old new)
      → Stands passphrase
          (edit_list (renames old new) es)
          (bind (rename_in old new passphrase ivs salt es) (λ f. ok (f, none)))
  unfolding edit_list
  rename_in-Stands old new passphrase salt ivs es v a = elim (Bool-cases (has_name new es)) [
    | inl taken ↦ rw taken refl
    | inr fresh ↦ elim (Bool-cases (has_name old es)) [
      | inr absent ↦ rw (fresh, absent) refl
      | inl found ↦
          rw (fresh, found, ← renamed-map old new es v)
            (saved-Stands passphrase salt ivs (renamed old new es)
              (renamed-Valid old new es v fresh a))
    ]
  ]

  -- Adding, removing and renaming a wallet in a file that loads does to the file what the edit does to
  -- the list of its entries: an added entry stands last, a removal keeps exactly the entries of other
  -- names and returns the removed one, and a renaming changes nothing but the name. The new file loads
  -- with the same passphrase as that list, and where the edit is refused (a name taken, or missing) the
  -- call fails in the same way. A new entry has a name and a private key, a new name is not empty, and
  -- the cipher decrypts what it has encrypted.
  pub edit_file-edit_list :
      (ed : Edit) (passphrase : Bytes) (ivs : ℕ → Bytes) (file : File) (es : List Entry)
      → IsAllowed ed
      → load_keystore derive encrypt decrypt passphrase file ≡ ok es
      → Stands passphrase (edit_list ed es) (edit_file ed passphrase ivs file)
  unfolding edit_file add_wallet remove_wallet rename_wallet
  edit_file-edit_list (adds e) passphrase ivs file es a h =
      let v = load_keystore-Valid derive encrypt decrypt decrypts passphrase file es h in
      let (salt, o) = opened-ok passphrase file es (add_to e passphrase ivs) h in
      rw o (add_to-Stands e passphrase salt ivs es v a)
  edit_file-edit_list (removes n) passphrase ivs file es a h =
      let v = load_keystore-Valid derive encrypt decrypt decrypts passphrase file es h in
      let (salt, o) = opened-ok passphrase file es (remove_from n passphrase ivs) h in
      rw o (remove_from-Stands n passphrase salt ivs es v)
  edit_file-edit_list (renames old new) passphrase ivs file es a h =
      let v = load_keystore-Valid derive encrypt decrypt decrypts passphrase file es h in
      let (salt, o) = opened-ok passphrase file es (rename_in old new passphrase ivs) h in
      rw o (rename_in-Stands old new passphrase salt ivs es v a)
