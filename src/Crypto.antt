-- ===== src/Crypto.antt =====
-- What the crypto containers share: their errors, and the cryptography that they take from Themis
-- and from Go's standard library.
use acra.Base.{ℕ, ◌+◌, ◌≤◌, ◌≡◌, Bytes, length}
use acra.Base.Outcome.{Outcome, ok}

-- The error values of the packages acrablock, acrastruct and crypto. An error wrapped by `%w` is the
-- one that it wraps. `external` is an error of a library or a service.
pub data Error : Type 0 where
  invalid_acrablock data_encryption_key_generation : Error
  invalid_acrastruct incorrect_tag_begin incorrect_length incorrect_data_length : Error
  no_private_keys short_random : Error
  incorrect_serialized_container empty_encrypted_data invalid_internal_container : Error
  no_serialized_container_extracted no_old_container_matched handler_not_found handler_already_exist
        decryption_error keys_not_found :
      Error
  external : ℕ → Error

-- Themis Secure Cell in seal mode, by key, data and context, and a sealing by its random seed; and
-- SHA-256. What was sealed opens under the same key and context,
-- and is longer than the data by a small overhead.
pub record Cell : Type 0 where
  pub seal : ℕ → Bytes → Bytes → Bytes → Outcome Error Bytes
  pub unseal : Bytes → Bytes → Bytes → Outcome Error Bytes
  pub unseal-seal :
      (seed : ℕ) (key plain context sealed : Bytes)
      → seal seed key plain context ≡ ok sealed
      → unseal key sealed context ≡ ok plain
  -- an IV, an authentication tag and a header
  pub length-seal :
      (seed : ℕ) (key plain context sealed : Bytes)
      → seal seed key plain context ≡ ok sealed
      → length sealed ≤ length plain + 256
  pub sha256 : Bytes → Bytes
  pub length-sha256 : (message : Bytes) → length (sha256 message) ≡ 32

-- Themis Secure Message, by private and public keys, with the key pairs of elliptic curves. What one
-- pair wrapped for another is unwrapped by it.
pub record Messenger : Type 1 where
  -- private, then public
  pub IsPair : Bytes → Bytes → Type 0
  pub wrap : ℕ → Bytes → Bytes → Bytes → Outcome Error Bytes
  pub unwrap : Bytes → Bytes → Bytes → Outcome Error Bytes
  pub unwrap-wrap :
      (seed : ℕ) (mine my_public theirs their_public message sealed : Bytes)
      → IsPair mine my_public
      → IsPair theirs their_public
      → wrap seed mine their_public message ≡ ok sealed
      → unwrap theirs my_public sealed ≡ ok message
  pub length-public : (mine my_public : Bytes) → IsPair mine my_public → length my_public ≡ 45
  -- for a message of 32 bytes
  pub length-wrap :
      (seed : ℕ) (mine their_public message sealed : Bytes)
      → length message ≡ 32
      → wrap seed mine their_public message ≡ ok sealed
      → length sealed ≡ 84
