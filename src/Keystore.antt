-- ===== src/Keystore.antt =====
-- skr_crypto/server/encrypted_keystore.py: the keystore file as the document that it decodes to, and
-- the operations that read and rewrite it. JSON, Base64, scrypt and AES-GCM are third-party: the
-- decoded file, the key derivation and the cipher are arguments, and so are the random salt and IVs.
pub mod Edits
pub mod Entries
pub mod Refines
mod Tests
use skr_crypto.Prelude.{
  ℕ, ◌+◌, String, Bool, true, ◌&&◌, ◌||◌, not, List, [], ◌∷◌, ◌++◌, Option, none, some, length, any,
  str_eq, ◌==◌, if◌then◌else◌,
}

abbrev pub Bytes : Type 0
Bytes = List ℕ

-- KeystoreError and its subclasses.
pub data KeystoreError : Type 0 where
  general not_found corrupt unsupported_version wrong_passphrase name_conflict : KeystoreError

pub data Result (A : Type 0) : Type 0 where
  ok : A → Result A
  err : KeystoreError → Result A

abbrev pub bind : {A B : Type 0} → Result A → (A → Result B) → Result B
bind (ok a) f = f a
bind (err e) f = err e

pub record Entry : Type 0 where
  pub name : String
  pub address : String
  pub raw_key : Bytes

-- One object of "wallets".
pub record Row : Type 0 where
  pub name : String
  pub address : String
  pub iv : Bytes
  pub ciphertext : Bytes

-- The document; `has_scheme` is whether "kdf" and "cipher" are the expected texts.
pub record Document : Type 0 where
  pub version : ℕ
  pub has_scheme : Bool
  pub salt : Bytes
  pub wallets : List Row

-- A file: none, one that the group or others may read, one that does not decode, or a document.
pub data File : Type 0 where
  missing unsafe_mode garbled : File
  document : Document → File

-- `_check_file_mode` and the decoding of the file.
unfoldable pub read_document : File → Result Document
read_document missing = err not_found
read_document unsafe_mode = err general
read_document garbled = err corrupt
read_document (document d) =
    if not (d.version == 1)
    then err unsupported_version
    else if not d.has_scheme
    then err corrupt
    else ok d

-- `_validate_priv_bytes`
unfoldable pub is_private_key : Bytes → Bool
is_private_key b = length b == 32 && any (λ x. not (x == 0)) b

abbrev pub is_in : String → List String → Bool
is_in n names = any (λ m. str_eq m n) names

-- `e.name == name` for some entry.
abbrev pub has_name : String → List Entry → Bool
has_name n es = any (λ e. str_eq e.name n) es

abbrev pub fresh_document : Bytes → List Row → File
fresh_document salt rows =
    document (record { version = 1; has_scheme = true; salt = salt; wallets = rows })

-- `get_salt`, which reads the document without checking it.
unfoldable pub get_salt : File → Result Bytes
get_salt (document d) = ok d.salt
get_salt _ = err corrupt

-- The entries but those of a name.
unfoldable pub without : String → List Entry → List Entry
without n [] = []
without n (e ∷ es) = let rest = without n es in if str_eq e.name n then rest else e ∷ rest

-- The first entry of a name.
unfoldable pub first_of : String → List Entry → Option Entry
first_of n [] = none
first_of n (e ∷ es) = let rest = first_of n es in if str_eq e.name n then some e else rest

-- The first entry of a name, renamed.
unfoldable pub renamed : String → String → List Entry → List Entry
renamed old new [] = []
renamed old new (e ∷ es) =
    let rest = renamed old new es in
    if str_eq e.name old then record e { name = new } ∷ es else e ∷ rest

module _ (derive : Bytes → Bytes → Bytes) (encrypt : Bytes → Bytes → Bytes → String → Bytes)
    (decrypt : Bytes → Bytes → Bytes → String → Option Bytes) where
  load_plain : Row → Option Bytes → Result (List Entry) → Result (List Entry)
  load_plain w none rest = err wrong_passphrase
  load_plain w (some plain) rest =
      if is_private_key plain
      then bind rest
          (λ es. ok (record { name = w.name; address = w.address; raw_key = plain } ∷ es))
      else err general

  -- The loop of `load_keystore`, over the names seen before.
  unfoldable pub load_rows : Bytes → List String → List Row → Result (List Entry)
  unfolding load_plain is_private_key
  load_rows key seen [] = ok []
  load_rows key seen (w ∷ ws) =
      let rest = load_rows key (w.name ∷ seen) ws in
      if str_eq w.name "" || is_in w.name seen
      then err corrupt
      else load_plain w (decrypt key w.iv w.ciphertext w.name) rest

  unfoldable pub load_keystore : Bytes → File → Result (List Entry)
  unfolding read_document load_rows
  load_keystore passphrase file =
      bind (read_document file) (λ d. load_rows (derive passphrase d.salt) [] d.wallets)

  -- The loop of `save_keystore`; the n-th entry gets the n-th IV.
  unfoldable pub save_rows : Bytes → (ℕ → Bytes) → List String → List Entry → Result (List Row)
  unfolding is_private_key
  save_rows key ivs seen [] = ok []
  save_rows key ivs seen (e ∷ es) =
      let rest = save_rows key (λ n. ivs (n + 1)) (e.name ∷ seen) es in
      if is_in e.name seen
      then err name_conflict
      else if is_private_key e.raw_key
      then bind rest (λ ws. ok (
          record {
            name = e.name;
            address = e.address;
            iv = ivs 0;
            ciphertext = encrypt key (ivs 0) e.raw_key e.name;
          }
          ∷ ws))
      else err general

  -- `save_keystore`; the write itself is atomic.
  unfoldable pub save_keystore : Bytes → List Entry → Bytes → (ℕ → Bytes) → Result File
  unfolding save_rows
  save_keystore passphrase entries salt ivs =
      bind (save_rows (derive passphrase salt) ivs [] entries) (λ ws. ok (fresh_document salt ws))

  -- `init_keystore`
  unfoldable pub init_keystore : Bytes → Bool → Bytes → File → Result File
  init_keystore passphrase overwrite salt missing =
      if length passphrase == 0 then err general else ok (fresh_document salt [])
  init_keystore passphrase overwrite salt _ =
      if not overwrite || length passphrase == 0 then err general else ok (fresh_document salt [])

  -- The salt and the entries that every edit begins with.
  pub opened : {A : Type 0} → Bytes → File → (Bytes → List Entry → Result A) → Result A
  unfolding get_salt
  opened passphrase file f =
      bind (get_salt file) (λ salt. bind (load_keystore passphrase file) (λ es. f salt es))

  unfoldable pub add_wallet : Bytes → Entry → (ℕ → Bytes) → File → Result File
  unfolding opened
  add_wallet passphrase e ivs file = opened passphrase file (λ salt es.
      if has_name e.name es
      then err name_conflict
      else save_keystore passphrase (es ++ e ∷ []) salt ivs)

  pub and_entry : Option Entry → Result File → Result (File × Entry)
  and_entry none r = err general
  and_entry (some e) r = bind r (λ file. ok (file, e))

  -- The new file, and the removed entry, which the code returns.
  unfoldable pub remove_wallet : Bytes → String → (ℕ → Bytes) → File → Result (File × Entry)
  unfolding opened without first_of and_entry
  remove_wallet passphrase n ivs file = opened passphrase file (λ salt es.
      if length (without n es) == length es
      then err general
      else and_entry (first_of n es) (save_keystore passphrase (without n es) salt ivs))

  unfoldable pub rename_wallet : Bytes → String → String → (ℕ → Bytes) → File → Result File
  unfolding opened renamed
  rename_wallet passphrase old new ivs file = opened passphrase file (λ salt es.
      if has_name new es
      then err name_conflict
      else if has_name old es
      then save_keystore passphrase (renamed old new es) salt ivs
      else err general)
