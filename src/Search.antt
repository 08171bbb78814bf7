-- ===== src/Search.antt =====
-- Searchable encryption: a hash of the plain data stands in front of the encrypted data (hmac).
pub mod Column
use acra.Base.{
  ℕ, zero, suc, ◌+◌, ◌≡◌, Bool, true, false, not, Option, none, some, List, [], ◌∷◌, ◌++◌, Bytes,
  bytes_eq, ◌==◌, if◌then◌else◌, ltb, length, take, drop,
}
use acra.Base.Outcome.{Outcome, ok, err, panic, ◌>>=◌}
use acra.Crypto.{Error}
use acra.Acrablock
use acra.Acrastruct.{decrypt_rotated}
use acra.Crypto.{Cell, Messenger}

pub data SearchError : Type 0 where
  hmac_not_match : SearchError
  processing : Error → SearchError

-- `crypto/hmac` with SHA-256, by key and message: 32 bytes.
pub record Mac : Type 0 where
  pub mac : Bytes → Bytes → Bytes
  pub length-mac : (key message : Bytes) → length (mac key message) ≡ 32

-- the number of SHA-256, which is the only hash function known
abbrev pub default_func_number : ℕ
default_func_number = 127

abbrev pub default_hash_size : ℕ
default_hash_size = 33

-- `ExtractHash`: the hash with its number in front
unfoldable pub extract_hash : Bytes → Option Bytes
extract_hash [] = none
extract_hash (b ∷ bs) =
    if b == default_func_number
    then (if ltb (length bs) 32 then none else some (b ∷ take 32 bs))
    else none

-- `ExtractHashAndData`
unfoldable pub extract_hash_and_data : Bytes → Option (Bytes × Bytes)
unfolding extract_hash
extract_hash_and_data container = elim (extract_hash container) [
  | none ↦ none
  | some hash ↦ some (hash, drop (length hash) container)
]

-- `NewDefaultHash`
abbrev pub new_default_hash : Bytes → Bytes
new_default_hash raw_hash = default_func_number ∷ raw_hash

-- an error of the package below
abbrev pub lifted : Outcome Error Bytes → Outcome SearchError Bytes
lifted (ok b) = ok b
lifted (err e) = err (processing e)
lifted panic = panic

module _ (m : Mac) where
  open m use {mac}

  unfoldable pub generate_hmac : Bytes → Bytes → Bytes
  generate_hmac key message = default_func_number ∷ mac key message

  -- `IsEqual`, with the key of the client or the error of the key store
  unfoldable pub is_equal : Outcome Error Bytes → Bytes → Bytes → Bool
  is_equal (ok key) hash message = bytes_eq (drop 1 hash) (mac key message)
  is_equal _ hash message = false

  -- `SearchableDataEncryptor.EncryptWithClientID`, with the key for hashes, the test of the data's
  -- signature, its decryption and its encryption for the client
  unfoldable pub encrypt_searchable :
      Bool
      → Outcome Error Bytes
      → (Bytes → Outcome Error Bool)
      → (Bytes → Outcome Error Bytes)
      → (Bytes → Outcome Error Bytes)
      → Bytes
      → Outcome Error Bytes
  unfolding generate_hmac
  encrypt_searchable is_searchable hmac_key matches_signature open_data encrypt_data plain =
      if is_searchable
      then (hmac_key >>= λ key. matches_signature plain >>= λ matched.
          if matched
          then (open_data plain >>= λ opened. ok (generate_hmac key opened ++ plain))
          else (encrypt_data plain >>= λ sealed. ok (generate_hmac key plain ++ sealed)))
      else ok plain

  -- the test of the hash behind a decryption
  abbrev pub checked : Outcome Error Bytes → Bytes → Bytes → Outcome SearchError Bytes
  checked hmac_key hash message =
      if is_equal hmac_key hash message then ok message else err hmac_not_match

  -- `NewHashProcessor`, around a processor
  unfoldable pub process_hashed :
      (Bytes → Outcome Error Bytes) → Outcome Error Bytes → Bytes → Outcome SearchError Bytes
  unfolding extract_hash is_equal
  process_hashed process_data hmac_key column = elim (extract_hash column) [
    | none ↦ lifted (process_data column)
    | some hash ↦
        lifted (process_data (drop (length hash) column)) >>= λ opened. checked hmac_key hash opened
  ]

  -- `DecryptRotatedSearchableAcraStruct`
  unfoldable pub decrypt_searchable_struct :
      Cell → Messenger → Bytes → Bytes → List Bytes → Bytes → Outcome SearchError Bytes
  unfolding process_hashed
  decrypt_searchable_struct c messenger acrastruct hmac_key private_keys context =
      process_hashed (λ b. decrypt_rotated c messenger b private_keys context) (ok hmac_key)
        acrastruct

  -- `DecryptRotatedSearchableAcraBlock`
  unfoldable pub decrypt_searchable_block :
      Cell → Bytes → Bytes → List Bytes → Bytes → Outcome SearchError Bytes
  unfolding process_hashed
  decrypt_searchable_block c acra_block hmac_key keys context =
      process_hashed
        (λ b. Acrablock.new_acra_block b >>= λ block. Acrablock.decrypt c block keys context)
        (ok hmac_key) acra_block
