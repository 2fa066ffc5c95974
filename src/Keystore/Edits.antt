-- ===== src/Keystore/Edits.antt =====
-- The keystore file as a list of named keys: what each edit of the file does to that list.
use skr_crypto.Keystore.{
  Bytes, Result, ok, Entry, Row, File, document, read_document, is_private_key, is_in, has_name,
  fresh_document, get_salt, load_plain, load_rows, load_keystore, save_rows, save_keystore,
}
use skr_crypto.Prelude.{
  ℕ, ◌+◌, String, true, false, Option, some, List, [], ◌∷◌, ◌≡◌, refl, arith, All, str_eq, eq_iff,
}

-- What a keystore may hold: names that are not empty and differ, and private keys.
abbrev pub Valid : List Entry → Type 0
Valid [] = Unit {0}
Valid (e ∷ es) =
    (str_eq e.name "" ≡ false)
    × (is_private_key e.raw_key ≡ true)
    × (has_name e.name es ≡ false)
    × Valid es

-- No entry has a name of the list.
abbrev Apart : List String → List Entry → Type 0
Apart seen = All (λ e. is_in e.name seen ≡ false)

Apart-cons :
    (n : String) (seen : List String) (es : List Entry)
    → has_name n es ≡ false
    → Apart seen es
    → Apart (n ∷ seen) es
Apart-cons n seen [] h k = tt
Apart-cons n seen (e ∷ es) h k =
    ground (arith, Apart-cons n seen es, eq_iff n e.name, eq_iff e.name n)

Apart-uncons :
    (n : String) (seen : List String) (es : List Entry)
    → Apart (n ∷ seen) es
    → (has_name n es ≡ false) × Apart seen es
Apart-uncons n seen [] h = (refl, tt)
Apart-uncons n seen (e ∷ es) h =
    ground (arith, Apart-uncons n seen es, eq_iff n e.name, eq_iff e.name n)

Apart-nil : (es : List Entry) → Apart [] es
Apart-nil [] = tt
Apart-nil (e ∷ es) = (refl, Apart-nil es)

-- AES-GCM gives back what was encrypted with the same key, IV and associated data.
module _ (derive : Bytes → Bytes → Bytes) (encrypt : Bytes → Bytes → Bytes → String → Bytes)
    (decrypt : Bytes → Bytes → Bytes → String → Option Bytes)
    (decrypts : (key iv plain : Bytes) (name : String)
      → decrypt key iv (encrypt key iv plain name) name ≡ some plain) where
  abbrev load : Bytes → List String → List Row → Result (List Entry)
  load = load_rows derive encrypt decrypt

  abbrev save : Bytes → (ℕ → Bytes) → List String → List Entry → Result (List Row)
  save = save_rows derive encrypt decrypt

  load_rows-Valid :
      (key : Bytes) (seen : List String) (ws : List Row) (es : List Entry)
      → load key seen ws ≡ ok es
      → Valid es × Apart seen es
  unfolding load_rows load_plain
  load_rows-Valid key seen [] [] h = (tt, tt)
  load_rows-Valid key seen [] (e ∷ es) h = ground arith
  load_rows-Valid key seen (w ∷ ws) [] h = ground arith
  load_rows-Valid key seen (w ∷ ws) (e ∷ es) h =
      ground (arith, load_rows-Valid key (w.name ∷ seen) ws es, Apart-uncons w.name seen es)

  -- What `save_rows` writes for a list that a keystore may hold.
  sealed : Bytes → (ℕ → Bytes) → List Entry → List Row
  sealed key ivs [] = []
  sealed key ivs (e ∷ es) =
      record {
        name = e.name;
        address = e.address;
        iv = ivs 0;
        ciphertext = encrypt key (ivs 0) e.raw_key e.name;
      }
      ∷ sealed key (λ n. ivs (n + 1)) es

  save_rows-sealed :
      (key : Bytes) (ivs : ℕ → Bytes) (seen : List String) (es : List Entry)
      → Valid es
      → Apart seen es
      → save key ivs seen es ≡ ok (sealed key ivs es)
  unfolding save_rows sealed
  save_rows-sealed key ivs seen [] v a = refl
  save_rows-sealed key ivs seen (e ∷ es) v a =
      ground (
        arith,
        save_rows-sealed key (λ n. ivs (n + 1)) (e.name ∷ seen) es,
        Apart-cons e.name seen es,
      )

  load_rows-sealed :
      (key : Bytes) (ivs : ℕ → Bytes) (seen : List String) (es : List Entry)
      → Valid es
      → Apart seen es
      → load key seen (sealed key ivs es) ≡ ok es
  unfolding load_rows load_plain sealed
  load_rows-sealed key ivs seen [] v a = refl
  load_rows-sealed key ivs seen (e ∷ es) v a = ground (
    arith,
    load_rows-sealed key (λ n. ivs (n + 1)) (e.name ∷ seen) es,
    Apart-cons e.name seen es,
    decrypts key (ivs 0) e.raw_key e.name,
  )

  pub load_keystore-Valid :
      (passphrase : Bytes) (file : File) (es : List Entry)
      → load_keystore derive encrypt decrypt passphrase file ≡ ok es
      → Valid es
  unfolding load_keystore read_document
  load_keystore-Valid passphrase (document d) es h =
      (load_rows-Valid (derive passphrase d.salt) [] d.wallets es (ground arith)).0
  load_keystore-Valid passphrase _ es h = ground arith

  -- Saving a list that a keystore may hold succeeds, and the file that it writes loads as that list with
  -- the same passphrase, if the cipher decrypts what it has encrypted.
  pub load_keystore-save_keystore :
      (passphrase salt : Bytes) (ivs : ℕ → Bytes) (es : List Entry)
      → Valid es
      → (file : File) × (save_keystore derive encrypt decrypt passphrase es salt ivs ≡ ok file)
        × (load_keystore derive encrypt decrypt passphrase file ≡ ok es)
        × (get_salt file ≡ ok salt)
  unfolding load_keystore save_keystore read_document get_salt
  load_keystore-save_keystore passphrase salt ivs es v =
      let key = derive passphrase salt in
      (
        fresh_document salt (sealed key ivs es),
        rw (save_rows-sealed key ivs [] es v (Apart-nil es)) refl,
        load_rows-sealed key ivs [] es v (Apart-nil es),
        refl,
      )
