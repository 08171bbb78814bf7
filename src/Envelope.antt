-- ===== src/Envelope.antt =====
-- Serialized containers around AcraBlocks and AcraStructs: crypto/registry.go and
-- registry_handler.go. A container is `%%%`, a length of 8 bytes, the ID of the handler
-- that opens it, and the inner container.
pub mod Handlers
pub mod Detect
pub mod RoundTrip
use acra.Base.{
  ℕ, zero, suc, ◌+◌, ◌-◌, ◌*◌, ◌%◌, ◌<◌, ◌≡◌, Bool, true, false, not, ◌&&◌, ◌||◌, Option, none,
  some, List, [], ◌∷◌, ◌++◌, ◌==◌, Bytes, if◌then◌else◌, ltb, leb, length, take, drop, get_or,
  bytes_eq, text,
}
use acra.Base.Words.{le_bytes, le_value}
use acra.Base.Outcome.{Outcome, ok, err, panic, ◌>>=◌, ◌>>◌, guard}
use acra.Crypto.{
  Error, Cell, Messenger, incorrect_serialized_container, empty_encrypted_data,
  invalid_internal_container, no_serialized_container_extracted, no_old_container_matched,
  handler_not_found, handler_already_exist, decryption_error,
}
use acra.Acrablock.{extract_acra_block, new_acra_block, create_acra_block, decrypt}
use acra.Acrastruct.{validate, get_data_length, total_length, decrypt_rotated, create_acra_struct}

-- `ContainerHandler`, with the keys of one client
pub record Handler : Type 0 where
  pub name : Bytes
  pub id : ℕ
  pub matches : Bytes → Outcome Error Bool
  pub open_container : Bytes → Outcome Error Bytes
  pub encrypt : Bytes → Outcome Error Bytes

-- `mapRegistry`: the handlers, the last registered first; names differ, and a later handler takes
-- the ID of an earlier one.
abbrev pub Registry : Type 0
Registry = List Handler

abbrev pub get_handler_by_name : Bytes → Registry → Outcome Error Handler
get_handler_by_name name [] = err handler_not_found
get_handler_by_name name (h ∷ hs) =
    if bytes_eq h.name name then ok h else get_handler_by_name name hs

unfoldable pub get_handler_by_id : ℕ → Registry → Outcome Error Handler
get_handler_by_id id [] = err handler_not_found
get_handler_by_id id (h ∷ hs) = if h.id == id then ok h else get_handler_by_id id hs

-- `Register`
unfoldable pub register : Handler → Registry → Outcome Error Registry
register h hs = elim (get_handler_by_name h.name hs) [
  | ok other ↦ err handler_already_exist
  | err e ↦ ok (h ∷ hs)
  | panic ↦ panic
]

abbrev pub tag_begin : Bytes
tag_begin = b'%' ∷ b'%' ∷ b'%' ∷ []

abbrev pub min_size : ℕ
min_size = 12

abbrev pub acra_block_id : ℕ
acra_block_id = 0xf0

abbrev pub acra_struct_id : ℕ
acra_struct_id = 0xf1

-- `SerializeEncryptedData`
unfoldable pub serialize : Bytes → ℕ → Outcome Error Bytes
serialize [] id = err empty_encrypted_data
serialize (b ∷ bs) id = ok (tag_begin ++ (le_bytes 8 (min_size + length (b ∷ bs)) ++ id ∷ b ∷ bs))

-- `matchOldContainer`: an ID and a length
unfoldable pub match_old_container : Bytes → Outcome Error (ℕ × ℕ)
unfolding validate get_data_length extract_acra_block
match_old_container b = elim (validate b) [
  | panic ↦ panic
  | ok _ ↦ (do n ← get_data_length b; ok (acra_struct_id, total_length n))
  | err _ ↦ elim (extract_acra_block b) [
    | panic ↦ panic
    | ok (n, block) ↦ ok (acra_block_id, n)
    | err _ ↦ err no_old_container_matched
  ]
]

-- the length field of a container
unfoldable pub container_length : Bytes → ℕ
container_length b = le_value (take 8 (drop 3 b))

-- `getSerializedContainerLength`, with the subtraction of `uint64`
unfoldable pub get_serialized_length : Bytes → Outcome Error ℕ
unfolding container_length
get_serialized_length b =
    if ltb (length b - min_size) ((container_length b + 0xfffffffffffffff4) % 0x10000000000000000)
    then err incorrect_serialized_container
    else ok ((container_length b + 0xfffffffffffffff4) % 0x10000000000000000)

module _ (registry : Registry) where
  -- `validateSerializedContainer`
  unfoldable pub validate_serialized : Bytes → Outcome Error ℕ
  unfolding get_handler_by_id
  validate_serialized b =
      if leb (length b) min_size
      then err incorrect_serialized_container
      else if not (bytes_eq (take 3 b) tag_begin)
      then err incorrect_serialized_container
      else elim (get_handler_by_id (get_or b 11 0) registry) [
        | ok h ↦ ok (get_or b 11 0)
        | err _ ↦ err handler_not_found
        | panic ↦ panic
      ]

  -- `getEnvelopeIDFromData`: whether the data is an old container, and the ID
  unfoldable pub get_envelope_id : Bytes → Outcome Error (Bool × ℕ)
  unfolding validate_serialized match_old_container
  get_envelope_id b = elim (validate_serialized b) [
    | ok id ↦ ok (false, id)
    | panic ↦ panic
    | err e ↦ elim (match_old_container b) [
      | ok (id, n) ↦ ok (true, id)
      | err _ ↦ err e
      | panic ↦ panic
    ]
  ]

  -- `DeserializeEncryptedData`
  unfoldable pub deserialize : Bytes → Outcome Error (Bytes × ℕ)
  unfolding get_envelope_id get_serialized_length
  deserialize b = elim (get_envelope_id b) [
    | ok (true, id) ↦ ok (b, id)
    | ok (false, id) ↦ (do n ← get_serialized_length b; ok (take n (drop min_size b), id))
    | err e ↦ err e
    | panic ↦ panic
  ]

  -- `ExtractSerializedContainer`
  unfoldable pub extract_serialized : Bytes → Outcome Error (ℕ × Bytes)
  unfolding validate_serialized match_old_container serialize container_length
  extract_serialized b = elim (validate_serialized b) [
    | ok id ↦ ok (container_length b, b)
    | panic ↦ panic
    | err _ ↦ elim (match_old_container b) [
      | ok (id, n) ↦ (do container ← serialize b id; ok (n, container))
      | err _ ↦ err no_serialized_container_extracted
      | panic ↦ panic
    ]
  ]

  -- `RegistryHandler.MatchDataSignature`
  unfoldable pub match_data_signature : Bytes → Outcome Error Bool
  unfolding deserialize
  match_data_signature b = elim (deserialize b) [
    | ok (inner, id) ↦ elim (get_handler_by_id id registry) [
      | ok h ↦ h.matches inner
      | err _ ↦ ok false
      | panic ↦ panic
    ]
    | err _ ↦ ok false
    | panic ↦ panic
  ]

  -- `RegistryHandler.DecryptWithHandler`
  unfoldable pub decrypt_with_handler : Handler → Bytes → Outcome Error Bytes
  unfolding deserialize
  decrypt_with_handler h b = do
    (inner, id) ← deserialize b
    is_match ← h.matches inner
    guard is_match invalid_internal_container
    h.open_container inner

  -- `RegistryHandler.Process`
  unfoldable pub process : Bytes → Outcome Error Bytes
  unfolding get_envelope_id get_handler_by_id decrypt_with_handler
  process b = do
    (is_old, id) ← get_envelope_id b
    h ← get_handler_by_id id registry
    decrypt_with_handler h b

  -- The test of `EncryptWithHandler`: the second match is made only where the first one fails.
  unfoldable pub is_encrypted : Handler → Bytes → Outcome Error Bool
  unfolding match_data_signature
  is_encrypted h b = do is_match ← h.matches b; if is_match then ok true else match_data_signature b

  -- `RegistryHandler.EncryptWithHandler`
  unfoldable pub encrypt_with_handler : Handler → Bytes → Outcome Error Bytes
  unfolding is_encrypted serialize
  encrypt_with_handler h b = do
    encrypted ← is_encrypted h b
    if encrypted then ok b else (do inner ← h.encrypt b; serialize inner h.id)

  -- `RegistryHandler.EncryptWithClientID`, from the name in the settings of the column
  unfoldable pub encrypt_with_client_id : Bytes → Bytes → Outcome Error Bytes
  unfolding encrypt_with_handler
  encrypt_with_client_id name b = do h ← get_handler_by_name name registry; encrypt_with_handler h b
