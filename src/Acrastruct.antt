-- ===== src/Acrastruct.antt =====
-- AcraStructs: acrastruct/utils.go, with the sizes of acrastruct/constants.go. A struct is eight
-- tag bytes, a public key of 45 bytes, a wrapped key of 84, a length of 8, and the sealed data.
pub mod Safe
pub mod RoundTrip
use acra.Base.{
  ℕ, zero, suc, ◌+◌, ◌-◌, ◌*◌, ◌%◌, ◌<◌, ◌≡◌, Bool, true, false, not, ◌&&◌, ◌||◌, Option, none,
  some, List, [], ◌∷◌, ◌++◌, ◌==◌, Bytes, if◌then◌else◌, ltb, leb, length, take, drop, get_or,
  bytes_eq,
}
use acra.Base.Words.{le_bytes, le_value, is_negative}
use acra.Base.Outcome.{Outcome, ok, err, panic, ◌>>=◌, ◌>>◌, guard}
use acra.Crypto.{
  Error, Cell, Messenger, invalid_acrastruct, incorrect_tag_begin, incorrect_length,
  incorrect_data_length, no_private_keys, short_random,
}

-- `TagBegin`
abbrev pub tag_begin : Bytes
tag_begin = b'"' ∷ b'"' ∷ b'"' ∷ b'"' ∷ b'"' ∷ b'"' ∷ b'"' ∷ b'"' ∷ []

-- `GetMinAcraStructLength`
abbrev pub min_length : ℕ
min_length = 145

-- the length that a struct states
unfoldable pub stored_length : Bytes → ℕ
stored_length data_bytes = le_value (take 8 (drop 137 data_bytes))

-- `GetDataLengthFromAcraStruct`
unfoldable pub get_data_length : Bytes → Outcome Error ℕ
get_data_length data_bytes =
    if ltb (length data_bytes) min_length then panic else ok (stored_length data_bytes)

-- `ValidateAcraStructLength`
unfoldable pub validate : Bytes → Outcome Error (Unit {0})
unfolding get_data_length
validate data_bytes =
    if ltb (length data_bytes) min_length
    then err incorrect_length
    else if not (bytes_eq (take 8 data_bytes) tag_begin)
    then err incorrect_tag_begin
    else do
      data_length ← get_data_length data_bytes
      guard (data_length == length data_bytes - min_length) incorrect_data_length

-- the sum as a Go `int`
abbrev pub total_length : ℕ → ℕ
total_length data_length = (data_length + min_length) % 0x10000000000000000

-- the last test of `ExtractAcraStruct`
abbrev pub validated : Outcome Error (Unit {0}) → ℕ → Bytes → Outcome Error (ℕ × Bytes)
validated (ok _) n block = ok (n, block)
validated (err e) n block = err invalid_acrastruct
validated panic n block = panic

-- `ExtractAcraStruct`
unfoldable pub extract_acra_struct : Bytes → Outcome Error (ℕ × Bytes)
unfolding get_data_length validate
extract_acra_struct data_bytes =
    if ltb (length data_bytes) min_length then err invalid_acrastruct else do
      data_length ← get_data_length data_bytes
      let n = total_length data_length
      guard (not (is_negative n || ltb (length data_bytes) n)) incorrect_length
      validated (validate (take n data_bytes)) n (take n data_bytes)

module _ (c : Cell) (m : Messenger) where
  open c use {seal, unseal}
  open m use {wrap, unwrap}

  -- `DecryptAcrastruct`; the slices are in range, since the struct is valid
  unfoldable pub decrypt_acra_struct : Bytes → Bytes → Bytes → Outcome Error Bytes
  unfolding validate
  decrypt_acra_struct data_bytes private_key context = do
    validate data_bytes
    symmetric_key ← unwrap private_key (take 45 (drop 8 data_bytes)) (take 84 (drop 53 data_bytes))
    unseal symmetric_key (drop 145 data_bytes) context

  -- the loop of `DecryptRotatedAcrastruct`, from the last error
  unfoldable pub decrypt_each : Error → Bytes → List Bytes → Bytes → Outcome Error Bytes
  unfolding decrypt_acra_struct
  decrypt_each e data_bytes [] context = err e
  decrypt_each e data_bytes (private_key ∷ private_keys) context =
      elim (decrypt_acra_struct data_bytes private_key context) [
        | ok plain ↦ ok plain
        | err e' ↦ decrypt_each e' data_bytes private_keys context
        | panic ↦ panic
      ]

  -- `DecryptRotatedAcrastruct`
  abbrev pub decrypt_rotated : Bytes → List Bytes → Bytes → Outcome Error Bytes
  decrypt_rotated data_bytes private_keys context =
      decrypt_each no_private_keys data_bytes private_keys context

  -- `CreateAcrastruct`, from the key pair that `keys.New` gave and what `rand.Read` gave; the seeds
  -- are those of the wrapping and of the sealing
  unfoldable pub create_acra_struct :
      Outcome Error (Bytes × Bytes)
      → Outcome Error Bytes
      → ℕ
      → ℕ
      → Bytes
      → Bytes
      → Bytes
      → Outcome Error Bytes
  create_acra_struct pair random seed1 seed2 data_bytes acra_public context = do
    (random_private, random_public) ← pair
    random_key ← random
    guard (length random_key == 32) short_random
    encrypted_key ← wrap seed1 random_private acra_public random_key
    encrypted_data ← seal seed2 random_key data_bytes context
    ok (
        tag_begin
        ++ (random_public
            ++ (encrypted_key ++ (le_bytes 8 (length encrypted_data) ++ encrypted_data))))
