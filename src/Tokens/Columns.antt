-- ===== src/Tokens/Columns.antt =====
-- Tokenization of the text of a column: pseudonymization/dataTokenizer.go, queryDataEncryptor.go
-- and data_encoder.go.
pub mod RoundTrip
use acra.Base.{ℕ, ◌%◌, ◌^◌, Bool, true, false, Option, none, some, [], Bytes, ◌==◌, if◌then◌else◌}
use acra.Base.Decimal.{decimal, parse_int}
use acra.Base.Outcome.{Outcome, ok, err, panic, ◌>>=◌}
use acra.Tokens.Value.{
  TokenError, TokenType, TokenContext, TokenValueCodec, Value, int32, int64, str, bytes, email,
  number_format, data_type_mismatch, format_int32, int32_type, int64_type, string_type, bytes_type,
  email_type,
}
use acra.Tokens.Storage.{Entropy, TokenStorage}
use acra.Tokens.Pseudo.{Try, Pass, anonymize, anonymize_consistently, deanonymize}

-- what the tokenizer asks of a `ColumnEncryptionSetting`
pub record Setting : Type 0 where
  pub is_tokenized : Bool
  pub is_consistent_tokenization : Bool
  pub token_type : TokenType

abbrev pub parsed : Option ℕ → Outcome TokenError ℕ
parsed none = err number_format
parsed (some n) = ok n

-- The value that the text of a column stands for: what the branches of `Tokenize` and of
-- `Detokenize` pass on. An int32 is the lower half of the 64-bit number.
unfoldable pub column_value : Bytes → TokenType → Outcome TokenError Value
column_value d t =
    if t == int32_type
    then (parsed (parse_int d) >>= λ n. ok (int32 (n % 2 ^ 32)))
    else if t == int64_type
    then (parsed (parse_int d) >>= λ n. ok (int64 n))
    else if t == string_type
    then ok (str d)
    else if t == bytes_type
    then ok (bytes d)
    else if t == email_type
    then ok (email d)
    else err data_type_mismatch

-- The text of a value that came back: a value of another type fails the type assertion.
unfoldable pub column_text : Value → TokenType → Outcome TokenError Bytes
column_text (int32 n) t = if t == int32_type then ok (format_int32 n) else panic
column_text (int64 n) t = if t == int64_type then ok (decimal n) else panic
column_text (str s) t = if t == string_type then ok s else panic
column_text (bytes b) t = if t == bytes_type then ok b else panic
column_text (email e) t = if t == email_type then ok e else panic
column_text _ t = panic

-- What a call of the pseudoanonymizer takes from the world.
pub record World (st : TokenStorage) : Type 0 where
  pub tries : ℕ → Try
  pub passes : ℕ → Pass
  pub others : st.Store → st.Store

module _ (sha256 : Bytes → Bytes) (codec : TokenValueCodec) (st : TokenStorage) where
  open st use {Store}

  -- `Tokenize`
  unfoldable pub tokenize :
      World st → Bytes → TokenContext → Setting → Store → Store × Outcome TokenError Bytes
  tokenize w d c setting s = elim (column_value d setting.token_type) [
    | err e ↦ (s, err e)
    | panic ↦ (s, panic)
    | ok v ↦
        let (s1, token) =
          if setting.is_consistent_tokenization
          then anonymize_consistently sha256 codec st w.others w.passes v c setting.token_type s
          else anonymize sha256 codec st w.tries v c setting.token_type s in
        (s1, token >>= λ x. column_text x setting.token_type)
  ]

  -- `Detokenize`
  unfoldable pub detokenize :
      Entropy → Bytes → TokenContext → Setting → Store → Store × Outcome TokenError Bytes
  detokenize e d c setting s = elim (column_value d setting.token_type) [
    | err e' ↦ (s, err e')
    | panic ↦ (s, panic)
    | ok v ↦
        let (s1, value) = deanonymize sha256 codec st e v c setting.token_type s in
        (s1, value >>= λ x. column_text x setting.token_type)
  ]

  -- `TokenEncryptor.EncryptWithClientID`
  unfoldable pub encrypt_with_token :
      World st → Bytes → Bytes → Setting → Store → Store × Outcome TokenError Bytes
  unfolding tokenize
  encrypt_with_token w client d setting s =
      if setting.is_tokenized
      then tokenize w d (record { client_id = client; additional_context = [] }) setting s
      else (s, ok d)

  -- `TokenProcessor.OnColumn`, with the setting of the column, if it has one
  unfoldable pub on_column :
      Entropy → TokenContext → Option Setting → Bytes → Store → Store × Outcome TokenError Bytes
  unfolding detokenize
  on_column e c none d s = (s, ok d)
  on_column e c (some setting) d s =
      if setting.is_tokenized then detokenize e d c setting s else (s, ok d)
