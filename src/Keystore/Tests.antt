-- ===== src/Keystore/Tests.antt =====
-- A keystore of two wallets with a stand-in cipher, which marks a text with the length of the key.
use skr_crypto.Keystore.{
  Bytes, ok, err, corrupt, wrong_passphrase, general, not_found, Entry, File, Row, missing,
  load_keystore, save_keystore, init_keystore, get_salt, fresh_document, is_private_key, renamed,
}
use skr_crypto.Keystore.Edits.{Valid, load_keystore-save_keystore}
use skr_crypto.Keystore.Entries.{adds, edit_list}
use skr_crypto.Keystore.Refines.{edit_file, Stands, edit_file-edit_list}
use skr_crypto.Prelude.{
  ℕ, zero, suc, String, false, Option, none, some, [], ◌∷◌, ◌++◌, ◌≡◌, refl, length, ◌==◌,
  if◌then◌else◌, arith,
}

abbrev derive : Bytes → Bytes → Bytes
derive passphrase salt = passphrase ++ salt

abbrev encrypt : Bytes → Bytes → Bytes → String → Bytes
encrypt key iv plain name = length key ∷ plain

abbrev decrypt : Bytes → Bytes → Bytes → String → Option Bytes
decrypt key iv [] name = none
decrypt key iv (n ∷ plain) name = if n == length key then some plain else none

decrypts :
    (key iv plain : Bytes) (name : String)
    → decrypt key iv (encrypt key iv plain name) name ≡ some plain
decrypts key iv plain name = ground arith

repeat : ℕ → ℕ → Bytes
repeat zero b = []
repeat (suc n) b = b ∷ repeat n b

abbrev hot : Entry
unfolding repeat
hot = record { name = "hot"; address = "T1"; raw_key = repeat 32 7 }

abbrev cold : Entry
unfolding repeat
cold = record { name = "cold"; address = "T2"; raw_key = repeat 32 9 }

abbrev ivs : ℕ → Bytes
ivs n = n ∷ []

abbrev row : Entry → ℕ → Row
row e n = record { name = e.name; address = e.address; iv = n ∷ []; ciphertext = 3 ∷ e.raw_key }

abbrev pass : Bytes
pass = 1 ∷ 2 ∷ []

abbrev file : File
file = fresh_document (5 ∷ []) (row hot 0 ∷ [])

saved : save_keystore derive encrypt decrypt pass (hot ∷ []) (5 ∷ []) ivs ≡ ok file
unfolding save_keystore repeat
saved = refl

loaded : load_keystore derive encrypt decrypt pass file ≡ ok (hot ∷ [])
unfolding load_keystore repeat
loaded = refl

wrong : load_keystore derive encrypt decrypt (1 ∷ []) file ≡ err wrong_passphrase
unfolding load_keystore repeat
wrong = refl

twice :
    load_keystore derive encrypt decrypt pass (fresh_document (5 ∷ []) (row hot 0 ∷ row hot 1 ∷ []))
    ≡ err corrupt
unfolding load_keystore repeat
twice = refl

no_file : load_keystore derive encrypt decrypt pass missing ≡ err not_found
unfolding load_keystore
no_file = refl

-- A file with an empty name is written, and does not load.
no_name :
    load_keystore derive encrypt decrypt pass
      (fresh_document (5 ∷ []) (row (record hot { name = "" }) 0 ∷ []))
    ≡ err corrupt
unfolding load_keystore repeat
no_name = refl

no_overwrite : init_keystore derive encrypt decrypt pass false (5 ∷ []) file ≡ err general
unfolding init_keystore
no_overwrite = refl

both_names : renamed "hot" "warm" (hot ∷ cold ∷ []) ≡ record hot { name = "warm" } ∷ cold ∷ []
unfolding renamed hot
both_names = refl

both-Valid : Valid (hot ∷ cold ∷ [])
unfolding is_private_key repeat
both-Valid = (refl, refl, refl, (refl, refl, refl, tt))

load_keystore-save_keystore_example :
    (file : File) × (save_keystore derive encrypt decrypt pass (hot ∷ cold ∷ []) (5 ∷ []) ivs
      ≡ ok file)
    × (load_keystore derive encrypt decrypt pass file ≡ ok (hot ∷ cold ∷ []))
    × (get_salt file ≡ ok (5 ∷ []))
load_keystore-save_keystore_example =
    load_keystore-save_keystore derive encrypt decrypt decrypts pass (5 ∷ []) ivs (hot ∷ cold ∷ [])
      both-Valid

edit_file-edit_list_example :
    Stands derive encrypt decrypt decrypts pass
      (edit_list (adds cold) (hot ∷ []))
      (edit_file derive encrypt decrypt decrypts (adds cold) pass ivs file)
unfolding is_private_key repeat
edit_file-edit_list_example =
    edit_file-edit_list derive encrypt decrypt decrypts (adds cold) pass ivs file (hot ∷ [])
      (refl, refl) loaded
