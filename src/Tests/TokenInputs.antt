-- ===== src/Tests/TokenInputs.antt =====
-- Inputs for the theorems about tokens: pseudonymization/.
use acra.Base.{
  ℕ, zero, suc, ◌≡◌, refl, ap, sym, true, false, [], ◌∷◌, Bytes, arith, replicate, text, bytes_eq,
}
use acra.Crypto
use acra.Base.Dict.{lookup, insert}
use acra.Base.Decimal.{decimal, parse_int}
use acra.Base.Words.{IsBytes}
use acra.Base.Outcome.{Outcome, ok, err}
use acra.Tokens.Value.{
  TokenError, TokenContext, TokenType, TokenValueCodec, encode_to_bytes,
  aggregate_token_context_to_bytes, context_bytes, generate_data_id, bytes_to_golang_value,
  external, str, email, string_type, int32_type,
}
use acra.Tokens.Storage.{Entropy, TokenStorage}
use acra.Tokens.Random.{Draws, random_email, random_read, random_string, check_type, new_value}
use acra.Tokens.Random.Shape.{new_value-SameShape, SameShape}
use acra.Tokens.Pseudo.{
  Try, Pass, anonymize, anonymize_consistently, deanonymize, generate_new_value, new_entry, try_get,
  fresh_token, after_save,
}
use acra.Tokens.Pseudo.Kept.{deanonymize-anonymize}
use acra.Tokens.Pseudo.Consistent.{anonymize_consistently-again}
use acra.Tokens.Memory.{
  MemoryTokenStorage, Tokens, new_memory_token_storage, save, get, context_map, save_token,
  get_token, stat_token,
}
use acra.Tokens.Memory.Refines.{flat_save, flat_get, flat_stat, token_at, memory-refines_flat}
use acra.Tokens.Memory.Laws.{memory_storage}
use acra.Tokens.Columns.{Setting, World, column_value, column_text, tokenize, detokenize}
use acra.Tokens.Columns.RoundTrip.{detokenize-tokenize}

abbrev decode_token : Bytes → Outcome TokenError (Bytes × TokenType)
decode_token [] = err (external 0)
decode_token (t ∷ v) = ok (v, t)

decode_token-encode :
    (v : Bytes) (t : TokenType) (d : Bytes)
    → ◌≡◌ {A = Outcome TokenError Bytes} (ok (t ∷ v)) (ok d)
    → decode_token d ≡ ok (v, t)
decode_token-encode v t d h = let e : t ∷ v ≡ d = cc in sym (ap decode_token e)

-- The type is in front of the value.
abbrev tagged : TokenValueCodec
tagged = record {
  encode_token_value = λ v t. ok (t ∷ v);
  token_value_from_data = decode_token;
  from_data-encode = λ v t d h. decode_token-encode v t d h;
}

IsBytes-replicate : (n : ℕ) → IsBytes (replicate n 7)
IsBytes-replicate zero = tt
IsBytes-replicate (suc n) = (omega arith, IsBytes-replicate n)

IsBytes-sevens :
    (n : ℕ) (b : Bytes) → ◌≡◌ {A = Outcome TokenError Bytes} (ok (replicate n 7)) (ok b) → IsBytes b
IsBytes-sevens n b h = let e : replicate n 7 ≡ b = cc in rw (sym e) (IsBytes-replicate n)

abbrev sevens : Draws
sevens = record {
  read = λ n. ok (replicate n 7);
  IsBytes-read = λ n b h. IsBytes-sevens n b h;
  intn = λ i bound. 0;
  intn_bound = λ i bound h. h;
}

abbrev entropy : Entropy
entropy = record { now = 5; random = err (Crypto.external 0); seed1 = 0; seed2 = 0 }

abbrev same : Bytes → Bytes
same b = b

abbrev memory : TokenStorage
memory = memory_storage same

abbrev client : TokenContext
client = record { client_id = text "alice"; additional_context = [] }

abbrev tries : ℕ → Try
tries k = record { draws = sevens; entropy = entropy }

abbrev passes : ℕ → Pass
passes k = record { get_entropy = entropy; tries = tries; save_entropy = entropy }

-- the storage after a value was tokenized
abbrev after_hi : MemoryTokenStorage
after_hi =
    (anonymize same tagged memory tries (str (text "hi")) client string_type
      new_memory_token_storage).0

abbrev after_hi_again : MemoryTokenStorage
after_hi_again =
    (anonymize_consistently same tagged memory (λ s. s) passes (str (text "hi")) client string_type
      new_memory_token_storage).0

abbrev plain_setting : Setting
plain_setting = record {
  is_tokenized = true;
  is_consistent_tokenization = false;
  token_type = int32_type;
}

abbrev world : World memory
world = record { tries = tries; passes = passes; others = λ s. s }

abbrev after_number : MemoryTokenStorage
after_number =
    (tokenize same tagged memory world (text "4294967303") client plain_setting
      new_memory_token_storage).0

deanonymize-anonymize_example :
    (deanonymize same tagged memory entropy (str (text "aa")) client string_type after_hi).1
    ≡ ok (str (text "hi"))
unfolding anonymize check_type generate_new_value new_entry new_value encode_to_bytes save
    save_token lookup context_map random_string
deanonymize-anonymize_example =
    deanonymize-anonymize same tagged memory tries (str (text "hi")) client string_type
      new_memory_token_storage after_hi (str (text "aa")) entropy tt refl (λ id c d h. h)

anonymize_consistently-again_example :
    (anonymize_consistently same tagged memory
      (λ s. s)
      passes
      (str (text "hi"))
      client
      string_type
      after_hi_again).1
    ≡ ok (str (text "aa"))
unfolding anonymize check_type generate_new_value new_entry new_value encode_to_bytes save
    save_token lookup context_map random_string anonymize_consistently try_get get get_token insert
    bytes_eq aggregate_token_context_to_bytes context_bytes generate_data_id decimal fresh_token
    after_save bytes_to_golang_value
anonymize_consistently-again_example =
    anonymize_consistently-again same tagged memory (λ s. s) (λ s. s) passes passes
      (str (text "hi")) client string_type new_memory_token_storage after_hi_again (str (text "aa"))
      tt refl (λ id c d h. h) (λ id c d h. h)

-- An int32 that does not fit loses its upper bits.
detokenize-tokenize_example :
    (detokenize same tagged memory entropy (text "117901063") client plain_setting after_number).1
    ≡ ok (text "7")
unfolding tokenize column_value parse_int anonymize check_type generate_new_value new_entry
    new_value random_read encode_to_bytes save save_token lookup context_map column_text decimal
detokenize-tokenize_example =
    detokenize-tokenize same tagged memory world entropy (text "4294967303") (text "117901063")
      client plain_setting new_memory_token_storage after_number refl refl (λ id c d h. h)

new_value-SameShape_example : SameShape (email (text "someone@x.de")) (email (text "aaa@aaaa.com"))
unfolding new_value random_email random_string
new_value-SameShape_example =
    new_value-SameShape sevens (email (text "someone@x.de")) (email (text "aaaa@aaa.com")) refl

abbrev one_token : Tokens
one_token =
    (
      text "ctx",
      (
        text "id",
        record {
          content = text "v";
          metadata = record { created = 1; accessed = 1; disabled = true };
        },
      )
          ∷ [],
    )
    ∷ []

memory-refines_flat_example :
    (((save_token 9 (text "id") (text "ctx") (text "w") one_token).1
        ≡ (flat_save 9 (text "id") (text "ctx") (text "w") (token_at one_token)).1)
      × ((ctx' id' : Bytes)
          → token_at (save_token 9 (text "id") (text "ctx") (text "w") one_token).0 ctx' id'
            ≡ (flat_save 9 (text "id") (text "ctx") (text "w") (token_at one_token)).0 ctx' id'))
    × (((get_token 9 0 (text "id") (text "ctx") one_token).1
          ≡ (flat_get 9 0 (text "id") (text "ctx") (token_at one_token)).1)
        × ((ctx' id' : Bytes)
            → token_at (get_token 9 0 (text "id") (text "ctx") one_token).0 ctx' id'
              ≡ (flat_get 9 0 (text "id") (text "ctx") (token_at one_token)).0 ctx' id'))
    × (stat_token (text "id") (text "ctx") one_token
        ≡ flat_stat (text "id") (text "ctx") (token_at one_token))
memory-refines_flat_example = memory-refines_flat one_token 9 0 (text "id") (text "ctx") (text "w")
