-- ===== src/Acrablock.antt =====
-- AcraBlocks: acrablock/acrablock.go. A block is its bytes; the setters write into a fresh buffer,
-- so the buffer is passed on. Positions of fields are the constants of that file.
pub mod Layout
pub mod RoundTrip
pub mod Malformed
use acra.Base.{
  replicate, copy_at, ℕ, zero, suc, ◌+◌, ◌-◌, ◌*◌, ◌%◌, ◌<◌, ◌≡◌, Bool, true, false, not, ◌&&◌,
  ◌||◌, Option, none, some, List, [], ◌∷◌, ◌++◌, ◌==◌, Bytes, if◌then◌else◌, ltb, leb, length, take,
  drop, get_or, bytes_eq,
}
use acra.Base.Words.{le_bytes, le_value, is_negative}
use acra.Base.Outcome.{Outcome, ok, err, panic, ◌>>=◌, ◌>>◌, guard}
use acra.Crypto.{Error, Cell, invalid_acrablock, data_encryption_key_generation}

-- the first four bytes of `acrastruct.TagBegin`
abbrev pub tag_begin : Bytes
tag_begin = b'"' ∷ b'"' ∷ b'"' ∷ b'"' ∷ []

abbrev pub acra_block_min_size : ℕ
acra_block_min_size = 18

-- `KeyEncryptionBackendTypeSecureCell`, `DataEncryptionBackendTypeSecureCell`: the only entries of
-- the maps of backends
abbrev pub secure_cell_type : ℕ
secure_cell_type = 0

abbrev pub is_known_type : ℕ → Bool
is_known_type t = t == secure_cell_type

-- `NewEmptyAcraBlock`
unfoldable pub new_empty_acra_block : ℕ → Bytes
new_empty_acra_block size = copy_at 0 tag_begin (replicate size 0)

-- `SetKeyEncryptionKeyType`, `SetDataEncryptionType`, with `MarshalBinary`
unfoldable pub set_key_encryption_key_type : ℕ → Bytes → Bytes
set_key_encryption_key_type t b = copy_at 12 (take 1 (le_bytes 4 t)) b

unfoldable pub set_data_encryption_type : ℕ → Bytes → Bytes
set_data_encryption_type t b = copy_at 15 (take 1 (le_bytes 4 t)) b

-- `EncryptedDataEncryptionKeyLength`
unfoldable pub encrypted_key_length : Bytes → ℕ
encrypted_key_length b = le_value (take 2 (drop 16 b))

-- `setEncryptedDataEncryptionKey`
unfoldable pub set_encrypted_key : Bytes → Bytes → Outcome Error Bytes
set_encrypted_key key b =
    if ltb (length b) (18 + length key)
    then err invalid_acrablock
    else ok (copy_at 18 key (copy_at 16 (take 2 (le_bytes 4 (length key))) b))

-- `setEncryptedData`: the data fits where the rest of the buffer is at least as long
unfoldable pub set_encrypted_data : Bytes → Bytes → Outcome Error Bytes
unfolding encrypted_key_length
set_encrypted_data content b =
    if ltb (length b) 18
    then err invalid_acrablock
    else if ltb (length b) (18 + encrypted_key_length b)
    then err invalid_acrablock
    else if ltb (length b - (18 + encrypted_key_length b)) (length content)
    then err invalid_acrablock
    else ok (copy_at (18 + encrypted_key_length b) content b)

-- `Build`
unfoldable pub build : Bytes → Bytes → Bytes → Outcome Error Bytes
unfolding set_encrypted_key set_encrypted_data
build encrypted_key encrypted_data b = do
  b1 ← set_encrypted_key encrypted_key b
  b2 ← set_encrypted_data encrypted_data b1
  ok (copy_at 4 (le_bytes 8 (length b2 - 4)) b2)

-- `ExtractAcraBlockFromData`. `int(restLength+TagBeginSize)` is negative from 2^63 on, and the test
-- then passes; the slice that follows is out of range.
abbrev pub shifted : Bool → ℕ → ℕ
shifted test mask = if test then mask * 2 else mask

abbrev pub rest_length : Bytes → ℕ
rest_length b = le_value (take 8 (drop 4 b))

abbrev pub claimed_length : Bytes → ℕ
claimed_length b = (rest_length b + 4) % 0x10000000000000000

abbrev pub valid_mask : Bytes → ℕ
valid_mask b = shifted (is_known_type (get_or b 15 0)) (
    shifted (is_known_type (get_or b 12 0)) (
      shifted (is_negative (claimed_length b) || leb (claimed_length b) (length b))
        (shifted (bytes_eq (take 4 b) tag_begin) 1)))

unfoldable pub extract_acra_block : Bytes → Outcome Error (ℕ × Bytes)
extract_acra_block b =
    if ltb (length b) acra_block_min_size
    then err invalid_acrablock
    else if not (valid_mask b == 16)
    then err invalid_acrablock
    else if leb (claimed_length b) (length b)
    then ok (claimed_length b, take (claimed_length b) b)
    else panic

-- `NewAcraBlockFromData`
unfoldable pub new_acra_block : Bytes → Outcome Error Bytes
unfolding extract_acra_block
new_acra_block b = do (n, block) ← extract_acra_block b; ok block

module _ (c : Cell) where
  open c use {seal, unseal, sha256}

  -- `Sha256KeyIDGenerator.GenerateKeyID`
  abbrev pub key_id : Bytes → Bytes → Bytes
  key_id key context = take 2 (sha256 (key ++ context))

  -- `SetKeyEncryptionKeyID`
  unfoldable pub set_key_encryption_key_id : Bytes → Bytes → Bytes → Bytes
  set_key_encryption_key_id key context b = copy_at 13 (key_id key context) b

  -- A missing backend is a nil interface, and a call of it panics.
  abbrev pub backend_unseal : ℕ → Bytes → Bytes → Bytes → Outcome Error Bytes
  backend_unseal t key sealed context = if is_known_type t then unseal key sealed context else panic

  -- the loop over the keys in `Decrypt`
  unfoldable pub find_data_key :
      ℕ → Bytes → Bytes → Bytes → List Bytes → Outcome Error (Option Bytes)
  find_data_key t block_id encrypted_key context [] = ok none
  find_data_key t block_id encrypted_key context (key ∷ keys) =
      let rest = find_data_key t block_id encrypted_key context keys in
      elim (bytes_eq (key_id key context) block_id) [
        | false ↦ rest
        | true ↦ elim (backend_unseal t key encrypted_key context) [
          | ok data_key ↦ ok (some data_key)
          | err e ↦ rest
          | panic ↦ panic
        ]
      ]

  -- what follows the loop in `Decrypt`
  abbrev pub open_data : ℕ → Bytes → Bytes → Option Bytes → Outcome Error Bytes
  open_data t encrypted_data context none = err invalid_acrablock
  open_data t encrypted_data context (some data_key) =
      elim (backend_unseal t data_key encrypted_data context) [
        | ok plain ↦ ok plain
        | err e ↦ err invalid_acrablock
        | panic ↦ panic
      ]

  -- `Decrypt`. A slice or an index past the end of the block panics.
  unfoldable pub decrypt : Bytes → List Bytes → Bytes → Outcome Error Bytes
  unfolding encrypted_key_length find_data_key
  decrypt b keys context =
      if ltb (length b) 18
      then panic
      else if ltb (length b) (18 + encrypted_key_length b)
      then panic
      else do
        data_key ←
            find_data_key (get_or b 12 0) (take 2 (drop 13 b))
              (take (encrypted_key_length b) (drop 18 b)) context keys
        open_data (get_or b 15 0) (drop (18 + encrypted_key_length b) b) context data_key

  -- `CreateAcraBlockWithBackends`, from what `rand.Read` gave; the seeds are those of the sealings
  unfoldable pub create_with_backends :
      Outcome Error Bytes → ℕ → ℕ → Bytes → Bytes → Bytes → ℕ → ℕ → Outcome Error Bytes
  unfolding new_empty_acra_block set_key_encryption_key_type set_key_encryption_key_id
      set_data_encryption_type build
  create_with_backends random seed1 seed2 plain key context kek_type dek_type = do
    data_key ← random
    guard (length data_key == 32) data_encryption_key_generation
    encrypted_data ← if is_known_type dek_type then seal seed1 data_key plain context else panic
    encrypted_key ← if is_known_type kek_type then seal seed2 key data_key context else panic
    let empty = new_empty_acra_block (18 + length encrypted_data + length encrypted_key)
    let typed = set_key_encryption_key_type kek_type empty
    let named = set_key_encryption_key_id key context typed
    build encrypted_key encrypted_data (set_data_encryption_type dek_type named)

  -- `CreateAcraBlock`
  unfoldable pub create_acra_block :
      Outcome Error Bytes → ℕ → ℕ → Bytes → Bytes → Bytes → Outcome Error Bytes
  unfolding create_with_backends
  create_acra_block random seed1 seed2 plain key context =
      create_with_backends random seed1 seed2 plain key context secure_cell_type secure_cell_type
