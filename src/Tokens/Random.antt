-- ===== src/Tokens/Random.antt =====
-- New random values: pseudonymization/random.go and the anonymizer of tokenizer.go.
pub mod Shape
use acra.Base.{
  ℕ, zero, suc, ◌+◌, ◌-◌, ◌/◌, ◌<◌, ◌≡◌, List, [], ◌∷◌, ◌++◌, ◌==◌, Bytes, if◌then◌else◌, ltb,
  length, get_or, text, replicate, copy_at,
}
use acra.Base.Words.{le_value, IsBytes}
use acra.Base.Outcome.{Outcome, ok, err, panic, ◌>>=◌}
use acra.Tokens.Value.{
  TokenError, TokenType, Value, int32, int64, email, bytes, str, short_random, unknown_token_type,
  int32_type, int64_type, string_type, bytes_type, email_type,
}

-- The random numbers that one new value takes: `crypto/rand.Read` of so many bytes, which gives
-- bytes, and the numbers that `math/rand` draws one after another, each below its bound.
pub record Draws : Type 0 where
  pub read : ℕ → Outcome TokenError Bytes
  pub IsBytes-read : (n : ℕ) (b : Bytes) → read n ≡ ok b → IsBytes b
  pub intn : ℕ → ℕ → ℕ
  pub intn_bound : (i bound : ℕ) → 0 < bound → intn i bound < bound

abbrev pub charset : Bytes
charset = text "abcdefghijklmnopqrstuvwxyzABCDEFGHIJKLMNOPQRSTUVWXYZ0123456789"

-- ".com", ".net", ".org", ".edu" and ".info"
abbrev generic_tlds : List Bytes
generic_tlds = text ".com" ∷ text ".net" ∷ text ".org" ∷ text ".edu" ∷ text ".info" ∷ []

abbrev pub cc_tlds : List Bytes
cc_tlds = text ".au" ∷ text ".br" ∷ text ".de" ∷ text ".jp" ∷ text ".et" ∷ text ".us" ∷ []

abbrev pub all_tlds : List Bytes
all_tlds = generic_tlds ++ cc_tlds

module _ (draws : Draws) where
  open draws use {read, intn}

  -- `randomRead` into a buffer of n bytes
  unfoldable pub random_read : ℕ → Outcome TokenError Bytes
  random_read n = read n >>= λ b. if length b == n then ok b else err short_random

  -- `randomString` into a buffer of n bytes, from the i-th draw on
  unfoldable pub random_string : ℕ → ℕ → Bytes
  random_string i zero = []
  random_string i (suc n) = get_or charset (intn i (length charset)) 0 ∷ random_string (suc i) n

  abbrev pub tlds_for : ℕ → List Bytes
  tlds_for n = if ltb n (length (text "a@b.cdef")) then cc_tlds else all_tlds

  abbrev pub tld_for : ℕ → Bytes
  tld_for n = get_or (tlds_for n) (intn 0 (length (tlds_for n))) []

  -- the random string, `@` in the middle of it, and the top-level domain behind it
  abbrev pub filled_email : ℕ → Bytes → Bytes
  filled_email m tld =
      copy_at m tld (copy_at (m / 2) (b'@' ∷ []) (random_string 1 m ++ replicate (length tld) 0))

  -- `randomEmail` into a buffer of n bytes: a slice with a negative bound panics
  unfoldable pub random_email : ℕ → Outcome TokenError Bytes
  random_email n =
      if ltb n (length (tld_for n))
      then panic
      else ok (filled_email (n - length (tld_for n)) (tld_for n))

  -- `AnonymizeInt32` to `AnonymizeEmail` of the anonymizer: a new value for a value of the type
  unfoldable pub new_value : Value → Outcome TokenError Value
  new_value (int32 n) = random_read 4 >>= λ b. ok (int32 (le_value b))
  new_value (int64 n) = random_read 8 >>= λ b. ok (int64 (le_value b))
  new_value (bytes v) = random_read (length v) >>= λ b. ok (bytes b)
  new_value (str v) = ok (str (random_string 0 (length v)))
  new_value (email v) = random_email (length v) >>= λ b. ok (email b)
  new_value _ = err unknown_token_type

-- the tests of the type of a value in the switches of `Anonymize`
unfoldable pub check_type : Value → TokenType → Outcome TokenError (Unit {0})
check_type (int32 n) t = if t == int32_type then ok tt else err unknown_token_type
check_type (int64 n) t = if t == int64_type then ok tt else err unknown_token_type
check_type (str s) t = if t == string_type then ok tt else err unknown_token_type
check_type (email e) t = if t == email_type then ok tt else err unknown_token_type
check_type (bytes b) t = if t == bytes_type then ok tt else err unknown_token_type
check_type _ t = err unknown_token_type

-- `Anonymize` of the anonymizer
unfoldable pub anonymize_value : Draws → Value → TokenType → Outcome TokenError Value
anonymize_value draws v t = check_type v t >>= λ _. new_value draws v
