-- ===== src/Tokens/Value.antt =====
-- The values that are tokenized and their encoding: pseudonymization/utils.go, tokenizer.go,
-- common/common.go and common/tokenTypes.go.
use acra.Base.{ℕ, ◌+◌, ◌^◌, ◌<◌, ◌≡◌, ◌++◌, ◌==◌, Bytes, if◌then◌else◌, ltb, length, take, text}
use acra.Base.Words.{le_bytes, le_value}
use acra.Base.Decimal.{decimal}
use acra.Base.Outcome.{Outcome, ok, err, panic, ◌>>=◌}
use acra.Crypto.{Error}

-- The errors of the package pseudonymization, of its storages and of strconv; `container` is an
-- error of the encryption of tokens.
pub data TokenError : Type 0 where
  unknown_token_type data_type_mismatch generation_random_value : TokenError
  token_not_found token_exists token_disabled : TokenError
  number_format short_random keys_not_found : TokenError
  container : Error → TokenError
  external : ℕ → TokenError

-- the enum `TokenType`
abbrev pub TokenType : Type 0
TokenType = ℕ

abbrev pub int32_type : TokenType
int32_type = 1

abbrev pub int64_type : TokenType
int64_type = 2

abbrev pub string_type : TokenType
string_type = 3

abbrev pub bytes_type : TokenType
bytes_type = 4

abbrev pub email_type : TokenType
email_type = 5

abbrev pub int32_str_type : TokenType
int32_str_type = 6

abbrev pub int64_str_type : TokenType
int64_str_type = 7

-- The dynamic types of the `interface{}` that is tokenized. An integer is its bit pattern.
pub data Value : Type 0 where
  int32 int64 : ℕ → Value
  email bytes str : Bytes → Value
  -- a value of another Go type
  other : Value

-- `NormalizeTokenType`
unfoldable pub normalize_token_type : TokenType → TokenType → TokenType
normalize_token_type t default =
    if t == int32_type
    then t
    else if t == int64_type
    then t
    else if t == string_type
    then t
    else if t == bytes_type
    then t
    else if t == email_type
    then t
    else default

abbrev pub typed : TokenType → TokenType → Bytes → Outcome TokenError Bytes
typed expected t encoded = if t == expected then ok encoded else err data_type_mismatch

unfoldable pub encode_to_bytes : Value → TokenType → Outcome TokenError Bytes
encode_to_bytes (int32 n) t = typed int32_type t (le_bytes 4 n)
encode_to_bytes (int64 n) t = typed int64_type t (le_bytes 8 n)
encode_to_bytes (email e) t = typed email_type t e
encode_to_bytes (bytes b) t = typed bytes_type t b
encode_to_bytes (str s) t = typed string_type t s
encode_to_bytes other t = err unknown_token_type

-- `binary.LittleEndian` panics on data that is too short
unfoldable pub decode_int32 : Bytes → Outcome TokenError ℕ
decode_int32 d = if ltb (length d) 4 then panic else ok (le_value (take 4 d))

unfoldable pub decode_int64 : Bytes → Outcome TokenError ℕ
decode_int64 d = if ltb (length d) 8 then panic else ok (le_value (take 8 d))

-- `FormatInt(int64(v), 10)` of an int32
abbrev pub format_int32 : ℕ → Bytes
format_int32 n = decimal (if ltb n 0x80000000 then n else n + 0xffffffff00000000)

unfoldable pub bytes_to_golang_value : Bytes → TokenType → Outcome TokenError Value
bytes_to_golang_value d t =
    if t == bytes_type
    then ok (bytes d)
    else if t == string_type
    then ok (str d)
    else if t == email_type
    then ok (email d)
    else if t == int32_str_type
    then (decode_int32 d >>= λ n. ok (str (format_int32 n)))
    else if t == int64_str_type
    then (decode_int64 d >>= λ n. ok (str (decimal n)))
    else if t == int32_type
    then (decode_int32 d >>= λ n. ok (int32 n))
    else if t == int64_type
    then (decode_int64 d >>= λ n. ok (int64 n))
    else err unknown_token_type

pub record TokenContext : Type 0 where
  pub client_id : Bytes
  pub additional_context : Bytes

-- "zone" with the additional context where there is one, or else "client" with the client
unfoldable pub context_bytes : TokenContext → Bytes
context_bytes c =
    if length c.additional_context == 0
    then text "client" ++ c.client_id
    else text "zone" ++ c.additional_context

abbrev data_id_delim : Bytes
data_id_delim = text "tokenizator hash delimiter"

-- under `crypto/sha256`
module _ (sha256 : Bytes → Bytes) where
  unfoldable pub aggregate_token_context_to_bytes : TokenContext → Bytes
  aggregate_token_context_to_bytes c = sha256 (context_bytes c)

  unfoldable pub generate_data_id : Bytes → TokenContext → TokenType → Bytes
  generate_data_id d c t =
      sha256 (data_id_delim ++ (d ++ (context_bytes c ++ (data_id_delim ++ decimal t))))

abbrev pub generate_key_for_hash : Bytes → Bytes
generate_key_for_hash key = text "h." ++ key

abbrev pub generate_key_for_token : Bytes → Bytes
generate_key_for_token key = text "t." ++ key

-- The encoding of a `TokenValue`, a value with its type, by protobuf: what was encoded decodes.
pub record TokenValueCodec : Type 0 where
  pub encode_token_value : Bytes → TokenType → Outcome TokenError Bytes
  pub token_value_from_data : Bytes → Outcome TokenError (Bytes × TokenType)
  pub from_data-encode :
      (value : Bytes) (t : TokenType) (d : Bytes)
      → encode_token_value value t ≡ ok d
      → token_value_from_data d ≡ ok (value, t)

-- what an integer of the machine can be
abbrev pub IsValid : Value → Type 0
IsValid (int32 n) = n < 2 ^ 32
IsValid (int64 n) = n < 2 ^ 64
IsValid _ = Unit
