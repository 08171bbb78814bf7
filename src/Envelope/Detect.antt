-- ===== src/Envelope/Detect.antt =====
-- The search of a column for serialized containers: crypto/envelope_detector.go, with the handlers
-- that are called for a container (crypto/decryptor.go, poison_detector.go) and those that encrypt
-- (crypto/encryptor.go, reencryptor.go).
pub mod Column
use acra.Base.{
  ℕ, zero, suc, ◌+◌, ◌-◌, ◌≤◌, ◌≡◌, refl, sym, ap, ◌∙◌, Bool, true, false, not, ◌&&◌, ◌||◌, Option,
  none, some, List, [], ◌∷◌, ◌++◌, ◌==◌, Bytes, if◌then◌else◌, ltb, leb, length, take, drop,
  bytes_eq, index_of, le→leb, length-append, arith, take-append, drop-append,
}
use acra.Base.Words.{is_negative, word_mod}
use acra.Base.Outcome.{Outcome, ok, err, panic, ◌>>=◌}
use acra.Crypto.{Error, decryption_error}
use acra.Scan.{Found, shift_one, replaced, moved_back, refused, panicked, Scan, finished, scan}
use acra.Envelope.{
  Handler, Registry, tag_begin, min_size, extract_serialized, process, deserialize,
  get_handler_by_name, encrypt_with_client_id,
}

-- `EnvelopeCallbackHandler.OnCryptoEnvelope`, in the context of a client
abbrev pub Callback : Type 0
Callback = Bytes → Outcome Error Bytes

abbrev pub is_decryption_error : Error → Bool
is_decryption_error decryption_error = true
is_decryption_error _ = false

-- `EnvelopeDetector.OnCryptoEnvelope`
unfoldable pub on_crypto_envelope : List Callback → Bytes → Outcome Error Bytes
on_crypto_envelope [] container = ok container
on_crypto_envelope (h ∷ hs) container =
    let later = on_crypto_envelope hs container in
    elim (h container) [
      | panic ↦ panic
      | err e ↦ if is_decryption_error e then later else err e
      | ok processed ↦ if bytes_eq processed container then later else ok processed
    ]

-- The callbacks in `OnColumn`, for a container of n bytes at the front of `here`: to go on behind
-- more bytes than there are is a panic. A length from 2^63 up is a negative `int`.
unfoldable pub call_all : ℕ → Bytes → List Callback → Bytes → Found
call_all n here [] container = shift_one
call_all n here (h ∷ hs) container =
    let later = call_all n here hs container in
    elim (h container) [
      | panic ↦ panicked
      | err e ↦ if is_decryption_error e then later else refused e
      | ok processed ↦
          if bytes_eq processed container
          then later
          else if is_negative n
          then moved_back processed (word_mod - n)
          else if leb n (length here)
          then replaced processed n
          else panicked
    ]

abbrev pub has_none : List Callback → Bool
has_none [] = true
has_none _ = false

module _ (registry : Registry) where
  -- the body of the loop of `OnColumn`, at a tag
  unfoldable pub envelope_at : List Callback → Bytes → Found
  unfolding call_all
  envelope_at callbacks here = elim (extract_serialized registry here) [
    | ok (n, container) ↦ call_all n here callbacks container
    | err _ ↦ shift_one
    | panic ↦ panicked
  ]

  -- `EnvelopeDetector.OnColumn`, by the turns of its loop
  unfoldable pub detect_on_column : List Callback → ℕ → Bytes → Scan
  unfolding envelope_at scan
  detect_on_column callbacks fuel in_buffer =
      if ltb (length in_buffer) min_size || has_none callbacks
      then finished in_buffer
      else scan tag_begin (envelope_at callbacks) fuel in_buffer [] in_buffer

  -- `DecryptHandler.OnCryptoEnvelope`: what it cannot open comes back as it is
  unfoldable pub on_envelope_decrypt : Callback
  unfolding process
  on_envelope_decrypt container = elim (process registry container) [
    | ok decrypted ↦ ok decrypted
    | err _ ↦ ok container
    | panic ↦ panic
  ]

  -- `PoisonRecordDetector.OnCryptoEnvelope`, with the registry of the poison keys, and what the
  -- callbacks answer, if there are any
  unfoldable pub on_envelope_poison : Option (Outcome Error (Unit {0})) → Callback
  unfolding process
  on_envelope_poison none container = ok container
  on_envelope_poison (some called) container = elim (process registry container) [
    | ok _ ↦ called >>= λ _. ok container
    | err _ ↦ ok container
    | panic ↦ panic
  ]

  -- `EncryptHandler.EncryptWithClientID`, with what the setting of the column says
  unfoldable pub encrypt_column : Bool → Bytes → Bytes → Outcome Error Bytes
  unfolding encrypt_with_client_id
  encrypt_column only_encryption name b =
      if only_encryption then encrypt_with_client_id registry name b else ok b

  -- `ReEncryptHandler.MatchDataSignature`
  unfoldable pub matches_block : Bytes → Bytes → Outcome Error Bool
  unfolding deserialize
  matches_block acra_block_name b = elim (get_handler_by_name acra_block_name registry) [
    | err _ ↦ ok false
    | panic ↦ panic
    | ok h ↦ h.matches b >>= λ matched. if matched then ok true else elim (deserialize registry b) [
      | ok (internal, _) ↦ h.matches internal
      | err _ ↦ ok false
      | panic ↦ panic
    ]
  ]

  -- the decryption of an AcraStruct before it is encrypted into an AcraBlock
  unfoldable pub opened_struct : Bool → Bytes → Outcome Error Bytes
  unfolding extract_serialized process
  opened_struct should_re_encrypt b =
      if should_re_encrypt
      then elim (extract_serialized registry b) [
        | ok (_, serialized) ↦ process registry serialized
        | err _ ↦ ok b
        | panic ↦ panic
      ]
      else ok b

  -- `ReEncryptHandler.EncryptWithClientID`, for the name of the AcraBlocks' handler and the name of
  -- the handler in the setting of the column
  unfoldable pub re_encrypt_column : Bytes → Bytes → Bool → Bool → Bytes → Outcome Error Bytes
  unfolding matches_block opened_struct encrypt_with_client_id
  re_encrypt_column acra_block_name name only_encryption should_re_encrypt b =
      if not (bytes_eq name acra_block_name) || not only_encryption
      then ok b
      else (matches_block acra_block_name b >>= λ matched.
          if matched
          then ok b
          else (opened_struct should_re_encrypt b >>= λ plain.
              encrypt_with_client_id registry name plain))
