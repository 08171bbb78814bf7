-- ===== src/Envelope/Handlers.antt =====
-- The handlers of AcraBlocks and AcraStructs: crypto/acrablock.go and crypto/acrastruct.go, from
-- the keys that the key store gave for a client.
use acra.Base.{Bool, true, false, List, [], Bytes, text, ℕ}
use acra.Base.Outcome.{Outcome, ok, err, panic, ◌>>=◌, ◌>>◌}
use acra.Crypto.{Error, Cell, Messenger, decryption_error}
use acra.Acrablock.{extract_acra_block, new_acra_block, create_acra_block, decrypt}
use acra.Acrastruct.{validate, decrypt_rotated, create_acra_struct}
use acra.Envelope.{Handler, acra_block_id, acra_struct_id}

abbrev is_ok {ℓ} : {A : Type ℓ} → Outcome Error A → Outcome Error Bool
is_ok (ok a) = ok true
is_ok (err e) = ok false
is_ok panic = panic

-- the error of `AcraBlockHandler.Decrypt`
abbrev pub decrypted : Outcome Error Bytes → Outcome Error Bytes
decrypted (ok plain) = ok plain
decrypted (err e) = err decryption_error
decrypted panic = panic

module _ (c : Cell) (random : Outcome Error Bytes) (seed1 seed2 : ℕ) where
  -- `AcraBlockHandler.Decrypt`, from the keys that the key store gave
  unfoldable pub decrypt_block : Outcome Error (List Bytes) → Bytes → Outcome Error Bytes
  unfolding new_acra_block
  decrypt_block keys b = do
    block ← new_acra_block b
    private_keys ← keys
    decrypted (decrypt c block private_keys [])

  -- `AcraBlockHandler.EncryptWithClientID`
  unfoldable pub encrypt_block : Outcome Error Bytes → Bytes → Outcome Error Bytes
  unfolding extract_acra_block
  encrypt_block key b = elim (extract_acra_block b) [
    | ok _ ↦ ok b
    | err _ ↦ (do k ← key; create_acra_block c random seed1 seed2 b k [])
    | panic ↦ panic
  ]

  -- `AcraBlockHandler`
  abbrev pub acra_block_handler : Outcome Error (List Bytes) → Outcome Error Bytes → Handler
  acra_block_handler keys key = record {
    name = text "acrablock";
    id = acra_block_id;
    matches = λ b. is_ok (extract_acra_block b);
    open_container = λ b. decrypt_block keys b;
    encrypt = λ b. encrypt_block key b;
  }

module _ (c : Cell) (m : Messenger) (pair : Outcome Error (Bytes × Bytes))
    (random : Outcome Error Bytes) (seed1 seed2 : ℕ) where
  -- `AcraStructHandler.Decrypt`
  unfoldable pub decrypt_struct : Outcome Error (List Bytes) → Bytes → Outcome Error Bytes
  unfolding validate
  decrypt_struct keys b = do validate b; private_keys ← keys; decrypt_rotated c m b private_keys []

  -- `AcraStructHandler.EncryptWithClientID`
  unfoldable pub encrypt_struct : Outcome Error Bytes → Bytes → Outcome Error Bytes
  unfolding validate
  encrypt_struct public_key b = elim (validate b) [
    | ok _ ↦ ok b
    | err _ ↦ (do k ← public_key; create_acra_struct c m pair random seed1 seed2 b k [])
    | panic ↦ panic
  ]

  -- `AcraStructHandler`
  abbrev pub acra_struct_handler : Outcome Error (List Bytes) → Outcome Error Bytes → Handler
  acra_struct_handler keys public_key = record {
    name = text "acrastruct";
    id = acra_struct_id;
    matches = λ b. is_ok (validate b);
    open_container = λ b. decrypt_struct keys b;
    encrypt = λ b. encrypt_struct public_key b;
  }
