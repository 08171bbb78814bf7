-- ===== src/Tokens/Pseudo.antt =====
-- The pseudoanonymizer: generateNewValue, Anonymize, AnonymizeConsistently and Deanonymize of
-- pseudonymization/tokenizer.go, over any token storage.
pub mod Kept
pub mod Consistent
use acra.Base.{ℕ, zero, suc, ◌≡◌, Bool, true, false, Bytes, ◌==◌, if◌then◌else◌}
use acra.Base.Outcome.{Outcome, ok, err, panic, ◌>>=◌, ◌>>◌}
use acra.Tokens.Value.{
  TokenError, TokenType, TokenContext, TokenValueCodec, Value, encode_to_bytes,
  bytes_to_golang_value, generate_data_id, generate_key_for_hash, generate_key_for_token,
  token_exists, generation_random_value, data_type_mismatch,
}
use acra.Tokens.Storage.{Entropy, TokenStorage}
use acra.Tokens.Random.{Draws, check_type, new_value}

-- what one try to generate a value takes from the world
pub record Try : Type 0 where
  pub draws : Draws
  pub entropy : Entropy

-- what `AnonymizeConsistently` takes for one pass: `tries k` is the try with k tries left behind it
pub record Pass : Type 0 where
  pub get_entropy : Entropy
  pub tries : ℕ → Try
  pub save_entropy : Entropy

abbrev pub data_generation_loop_limit : ℕ
data_generation_loop_limit = 10

-- what a generated value is saved as
pub record Entry : Type 0 where
  pub value : Value
  pub key : Bytes
  pub content : Bytes

abbrev pub is_token_exists : TokenError → Bool
is_token_exists token_exists = true
is_token_exists _ = false

-- What follows a call of `Save`: the value, another round where the key is taken, or the error.
unfoldable pub after_save :
    {S : Type 0}
    → Value
    → (S → S × Outcome TokenError Value)
    → S × Outcome TokenError (Unit {0})
    → S × Outcome TokenError Value
after_save v again (s, ok _) = (s, ok v)
after_save v again (s, err e) = elim (is_token_exists e) [ true ↦ again s | false ↦ (s, err e) ]
after_save v again (s, panic) = (s, panic)

module _ (sha256 : Bytes → Bytes) where
  abbrev pub token_key : Bytes → TokenContext → TokenType → Bytes
  token_key encoded c t = generate_key_for_token (generate_data_id sha256 encoded c t)

  abbrev pub hash_key : Bytes → TokenContext → TokenType → Bytes
  hash_key encoded c t = generate_key_for_hash (generate_data_id sha256 encoded c t)

module _ (codec : TokenValueCodec) where
  open codec use {token_value_from_data}

  -- what a token that was read stands for
  unfoldable pub original : Bytes → TokenType → Outcome TokenError Value
  original content t = do
    (encoded, stored_type) ← token_value_from_data content
    if stored_type == t then bytes_to_golang_value encoded t else err data_type_mismatch

module _ (sha256 : Bytes → Bytes) (codec : TokenValueCodec) where
  open codec use {encode_token_value}

  -- one turn of the loop of `generateNewValue`, up to `Save`
  unfoldable pub new_entry : Draws → Value → TokenContext → TokenType → Outcome TokenError Entry
  new_entry draws v c t = do
    fresh ← new_value draws v
    encoded_new ← encode_to_bytes fresh t
    encoded ← encode_to_bytes v t
    content ← encode_token_value encoded t
    ok (record { value = fresh; key = token_key sha256 encoded_new c t; content = content })

  module _ (st : TokenStorage) where
    open st use {Store, save, get}

    -- `generateNewValue`, by the tries left
    unfoldable pub generate_new_value :
        ℕ → (ℕ → Try) → Value → TokenContext → TokenType → Store → Store × Outcome TokenError Value
    unfolding after_save
    generate_new_value zero tries v c t s = (s, err generation_random_value)
    generate_new_value (suc k) tries v c t s = elim (new_entry (tries k).draws v c t) [
      | err e ↦ (s, err e)
      | panic ↦ (s, panic)
      | ok entry ↦
          after_save entry.value (λ s1. generate_new_value k tries v c t s1)
            (save (tries k).entropy entry.key c entry.content s)
    ]

    -- `Anonymize`
    unfoldable pub anonymize :
        (ℕ → Try) → Value → TokenContext → TokenType → Store → Store × Outcome TokenError Value
    anonymize tries v c t s = elim (check_type v t) [
      | err e ↦ (s, err e)
      | panic ↦ (s, panic)
      | ok _ ↦ generate_new_value data_generation_loop_limit tries v c t s
    ]

    -- `Deanonymize`: a token that the storage does not give comes back as it is
    unfoldable pub deanonymize :
        Entropy → Value → TokenContext → TokenType → Store → Store × Outcome TokenError Value
    deanonymize e token c t s = elim (encode_to_bytes token t) [
      | err e' ↦ (s, err e')
      | panic ↦ (s, panic)
      | ok encoded ↦
          let (s1, found) = get e (token_key sha256 encoded c t) c s in
          elim found [
            | err _ ↦ (s1, ok token)
            | panic ↦ (s1, panic)
            | ok content ↦ (s1, original codec content t)
          ]
    ]

    -- A new token, saved under the key of the data, too. Between two calls of the storage others
    -- work on it: `others`.
    unfoldable pub fresh_token :
        (Store → Store)
        → Pass
        → (Store → Store × Outcome TokenError Value)
        → Value
        → TokenContext
        → TokenType
        → Bytes
        → Store
        → Store × Outcome TokenError Value
    fresh_token others pass again v c t key s =
        let (s2, fresh) = anonymize pass.tries v c t s in
        elim fresh [
          | err e ↦ (s2, err e)
          | panic ↦ (s2, panic)
          | ok token ↦ elim (encode_to_bytes token t) [
            | err e ↦ (s2, err e)
            | panic ↦ (s2, panic)
            | ok encoded ↦ after_save token again (save pass.save_entropy key c encoded (others s2))
          ]
        ]

    -- From `tryGetAgain` on, for data with this key in the storage, by the passes left.
    unfoldable pub try_get :
        (Store → Store)
        → ℕ
        → (ℕ → Pass)
        → Value
        → TokenContext
        → TokenType
        → Bytes
        → Store
        → Store × Outcome TokenError Value
    unfolding fresh_token
    try_get others zero passes v c t key s = (s, err token_exists)
    try_get others (suc k) passes v c t key s =
        let (s1, found) = get (passes k).get_entropy key c (others s) in
        elim found [
          | ok value ↦ (s1, bytes_to_golang_value value t)
          | panic ↦ (s1, panic)
          | err _ ↦
              fresh_token others (passes k) (λ s3. try_get others k passes v c t key s3) v c t key
                (others s1)
        ]

    -- `AnonymizeConsistently`: after a collision, one more pass
    unfoldable pub anonymize_consistently :
        (Store → Store)
        → (ℕ → Pass)
        → Value
        → TokenContext
        → TokenType
        → Store
        → Store × Outcome TokenError Value
    anonymize_consistently others passes v c t s = elim (encode_to_bytes v t) [
      | err e ↦ (s, err e)
      | panic ↦ (s, panic)
      | ok encoded ↦ try_get others 2 passes v c t (hash_key sha256 encoded c t) s
    ]
