-- ===== src/Tests/SecureInputs.antt =====
-- Inputs for the theorem about the storage that encrypts tokens: pseudonymization/storage.
use acra.Base.{◌≡◌, refl, [], ◌∷◌, ◌++◌, inl, Bytes, text, bytes_eq, replicate, arith}
use acra.Base.Dict.{lookup}
use acra.Base.Outcome.{ok}
use acra.Acrablock.{create_acra_block}
use acra.Tokens.Value.{TokenContext}
use acra.Tokens.Storage.{Entropy, TokenStorage}
use acra.Tokens.Memory.{MemoryTokenStorage, new_memory_token_storage, save, context_map, save_token}
use acra.Tokens.Memory.Laws.{memory_storage}
use acra.Tokens.Secure.{
  TokenKeystore, encryption_context, encrypt_token, save_encrypted, get_encrypted,
  get_encrypted-save_encrypted,
}
use acra.Tests.Instances.{length_cell}

abbrev key : Bytes
key = 1 ∷ 2 ∷ []

abbrev rotated : Bytes
rotated = 1 ∷ 2 ∷ 3 ∷ []

abbrev keys : TokenKeystore
keys = record { get_key = λ id. ok key; get_keys = λ id. ok (rotated ∷ key ∷ []) }

abbrev entropy : Entropy
entropy = record { now = 5; random = ok (replicate 32 5); seed1 = 0; seed2 = 0 }

abbrev client : TokenContext
client = record { client_id = text "alice"; additional_context = [] }

abbrev same : Bytes → Bytes
same b = b

abbrev memory : TokenStorage
memory = memory_storage same

abbrev stored : MemoryTokenStorage
stored =
    (save_encrypted length_cell keys memory entropy (text "id") client (text "hi")
      new_memory_token_storage).0

-- "hi" under `key`
abbrev sealed : Bytes
sealed =
    34 ∷ 34 ∷ 34 ∷ 34 ∷ 50 ∷ 0 ∷ 0 ∷ 0 ∷ 0 ∷ 0 ∷ 0 ∷ 0 ∷ 0 ∷ 7 ∷ 7 ∷ 0 ∷ 33 ∷ 0 ∷ 2 ∷ replicate 32 5
    ++ 32 ∷ text "hi"

-- The key was rotated since.
get_encrypted-save_encrypted_example :
    (get_encrypted length_cell keys memory entropy (text "id") client stored).1 ≡ ok (text "hi")
unfolding encrypt_token create_acra_block encryption_context bytes_eq save_encrypted save save_token
    context_map lookup
get_encrypted-save_encrypted_example =
    get_encrypted-save_encrypted length_cell keys memory entropy entropy (text "id") (text "hi")
      client new_memory_token_storage key sealed (rotated ∷ []) [] refl refl (inl refl, tt) refl
      (omega arith) refl
