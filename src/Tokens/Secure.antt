-- ===== src/Tokens/Secure.antt =====
-- The storage that encrypts tokens: pseudonymization/storage/encryptedStorageWrapper.go and
-- storageTokenEncryptor.go, around any token storage.
use acra.Base.{
  ◌<◌, ◌≡◌, refl, ap, List, [], ◌∷◌, ◌++◌, Bytes, ◌==◌, if◌then◌else◌, length, append-nil,
}
use acra.Base.Outcome.{Outcome, ok, err, panic, ◌>>=◌}
use acra.Crypto.{Error, Cell}
use acra.Acrablock.{create_acra_block, new_acra_block, decrypt}
use acra.Acrablock.RoundTrip.{AllPassed, decrypt-create, extract-create}
use acra.Tokens.Value.{TokenError, TokenContext, container, keys_not_found}
use acra.Tokens.Storage.{Entropy, TokenStorage}

-- `SymmetricEncryptionKeyStore`: the key of a client and all of its keys.
pub record TokenKeystore : Type 0 where
  pub get_key : Bytes → Outcome Error Bytes
  pub get_keys : Bytes → Outcome Error (List Bytes)

abbrev pub lift_error {ℓ} : {A : Type ℓ} → Outcome Error A → Outcome TokenError A
lift_error (ok a) = ok a
lift_error (err e) = err (container e)
lift_error panic = panic

-- the context of the encryption
unfoldable pub encryption_context : TokenContext → Bytes
encryption_context c =
    if length c.additional_context == 0 then c.client_id else c.additional_context

abbrev pub nonempty_keys : List Bytes → Outcome TokenError (List Bytes)
nonempty_keys [] = err keys_not_found
nonempty_keys (k ∷ ks) = ok (k ∷ ks)

lift_error-ok : {A : Type 0} (m : Outcome Error A) {a : A} → lift_error m ≡ ok a → m ≡ ok a
lift_error-ok (ok a) h = cc
lift_error-ok (err e) h = cc
lift_error-ok panic h = cc

nonempty_keys-holds :
    (before : List Bytes) (key : Bytes) (after : List Bytes)
    → nonempty_keys (before ++ key ∷ after) ≡ ok (before ++ key ∷ after)
nonempty_keys-holds [] key after = refl
nonempty_keys-holds (k ∷ ks) key after = refl

module _ (cell : Cell) (keystore : TokenKeystore) where
  open keystore use {get_key, get_keys}

  -- `scellEncryptor.Encrypt`
  unfoldable pub encrypt_token : Entropy → Bytes → TokenContext → Outcome TokenError Bytes
  unfolding create_acra_block
  encrypt_token e data_bytes c = do
    key ← lift_error (get_key c.client_id)
    lift_error
        (create_acra_block cell e.random e.seed1 e.seed2 data_bytes key (encryption_context c))

  -- `scellEncryptor.Decrypt`
  unfoldable pub decrypt_token : Bytes → TokenContext → Outcome TokenError Bytes
  unfolding new_acra_block decrypt
  decrypt_token sealed c = do
    block ← lift_error (new_acra_block sealed)
    keys ← lift_error (get_keys c.client_id)
    some_keys ← nonempty_keys keys
    lift_error (decrypt cell block some_keys (encryption_context c))

  encrypt_token-block :
      (e : Entropy) (plain : Bytes) (c : TokenContext) (key sealed : Bytes)
      → get_key c.client_id ≡ ok key
      → encrypt_token e plain c ≡ ok sealed
      → create_acra_block cell e.random e.seed1 e.seed2 plain key (encryption_context c) ≡ ok sealed
  unfolding encrypt_token
  encrypt_token-block e plain c key sealed held h = lift_error-ok _ (rw held at h)

  -- A token that was encrypted is decrypted to itself, where the keys of the client hold the one it
  -- was encrypted with, the keys in front are passed over, and the block is shorter than 2^63.
  pub decrypt_token-encrypt :
      (e : Entropy) (plain : Bytes) (c : TokenContext) (key sealed : Bytes)
      (before after : List Bytes)
      → get_key c.client_id ≡ ok key
      → get_keys c.client_id ≡ ok (before ++ key ∷ after)
      → AllPassed cell key (encryption_context c) before
      → encrypt_token e plain c ≡ ok sealed
      → length sealed < 0x8000000000000000
      → decrypt_token sealed c ≡ ok plain
  unfolding decrypt_token new_acra_block
  decrypt_token-encrypt e plain c key sealed before after held all passed h short =
      let made = encrypt_token-block e plain c key sealed held h in
      let found = rw (append-nil sealed) at (
        extract-create cell e.seed1 e.seed2 e.random plain key (encryption_context c) sealed [] made
          (rw (append-nil sealed) short)) in
      rw (found, all, nonempty_keys-holds before key after)
        (ap lift_error (
          decrypt-create cell e.seed1 e.seed2 e.random plain key (encryption_context c) sealed
            before after made passed))

  -- `Save` and `Get` of the wrapper
  module _ (st : TokenStorage) where
    open st use {Store, save, get, get-some, save-some}

    unfoldable pub save_encrypted :
        Entropy → Bytes → TokenContext → Bytes → Store → Store × Outcome TokenError (Unit {0})
    unfolding encrypt_token
    save_encrypted e id c data_bytes s = elim (encrypt_token e data_bytes c) [
      | err e' ↦ (s, err e')
      | panic ↦ (s, panic)
      | ok sealed ↦ save e id c sealed s
    ]

    unfoldable pub get_encrypted :
        Entropy → Bytes → TokenContext → Store → Store × Outcome TokenError Bytes
    unfolding decrypt_token
    get_encrypted e id c s =
        let (s1, found) = get e id c s in (s1, found >>= λ sealed. decrypt_token sealed c)

    -- A token that the wrapper saved is found again and decrypted to itself, in the storage as the
    -- call left it, under the conditions of `decrypt_token-encrypt`.
    pub get_encrypted-save_encrypted :
        (e e' : Entropy) (id plain : Bytes) (c : TokenContext) (s : Store) (key sealed : Bytes)
        (before after : List Bytes)
        → get_key c.client_id ≡ ok key
        → get_keys c.client_id ≡ ok (before ++ key ∷ after)
        → AllPassed cell key (encryption_context c) before
        → encrypt_token e plain c ≡ ok sealed
        → length sealed < 0x8000000000000000
        → (save_encrypted e id c plain s).1 ≡ ok tt
        → (get_encrypted e' id c (save_encrypted e id c plain s).0).1 ≡ ok plain
    unfolding get_encrypted save_encrypted
    get_encrypted-save_encrypted e e' id plain c s key sealed before after held all passed h short
          saved =
        let there = save-some e id c sealed s (rw (h, save_encrypted) at saved) in
        let found = get-some e' id c _ sealed there in
        rw (h, save_encrypted, found, get_encrypted)
          (decrypt_token-encrypt e plain c key sealed before after held all passed h short)
