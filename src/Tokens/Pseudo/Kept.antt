-- ===== src/Tokens/Pseudo/Kept.antt =====
-- `Deanonymize` gives back the value behind a token of `Anonymize`.
use acra.Base.{
  ℕ, zero, suc, ◌≡◌, refl, sym, ap, Bytes, ◌==◌, ==_refl, ==_iff, ◌⊎◌, inl, inr, Bool-cases, some,
  length, ◌<◌, ◌^◌,
}
use mathlib.Core.Path.{subst}
use acra.Base.Words.{le_value_bound, le_bytes, le_value, le_value-le_bytes}
use acra.Base.Outcome.{Outcome, ok, err, panic, >>=-eq_ok, Outcome-cases, ok_injective}
use acra.Tokens.Value.{
  TokenError, TokenType, TokenContext, TokenValueCodec, Value, IsValid, int32, int64, str, bytes,
  email, other, encode_to_bytes, typed, bytes_to_golang_value, decode_int32, decode_int64,
}
use acra.Tokens.Storage.{Entropy, TokenStorage, Extends}
use acra.Tokens.Random.{random_read, random_email, Draws, new_value, check_type}
use acra.Tokens.Random.Shape.{random_read-ok}
use acra.Tokens.Pseudo.{
  after_save, is_token_exists, Try, Entry, token_key, new_entry, original, generate_new_value,
  anonymize, deanonymize, data_generation_loop_limit,
}

decode_int32-le_bytes : (n : ℕ) → n < 2 ^ 32 → decode_int32 (le_bytes 4 n) ≡ ok n
unfolding decode_int32
decode_int32-le_bytes n h = ap ok (le_value-le_bytes 4 n h)

decode_int64-le_bytes : (n : ℕ) → n < 2 ^ 64 → decode_int64 (le_bytes 8 n) ≡ ok n
unfolding decode_int64
decode_int64-le_bytes n h = ap ok (le_value-le_bytes 8 n h)

-- A saved value is returned, or another round decides.
module _ {S : Type 0} (v : Value) (again : S → S × Outcome TokenError Value) where
  pub after_save-store :
      (r : S × Outcome TokenError (Unit {0}))
      → ((after_save v again r).0 ≡ r.0) ⊎ ((after_save v again r).0 ≡ (again r.0).0)
  unfolding after_save
  after_save-store (s, ok _) = inl refl
  after_save-store (s, err e) = elim (Bool-cases (is_token_exists e)) [
    | inl h ↦ inr (rw (h, after_save) refl)
    | inr h ↦ inl (rw (h, after_save) refl)
  ]
  after_save-store (s, panic) = inl refl

  pub after_save-ok :
      (r : S × Outcome TokenError (Unit {0})) (w : Value)
      → (after_save v again r).1 ≡ ok w
      → ((r.1 ≡ ok tt) × (v ≡ w) × ((after_save v again r).0 ≡ r.0))
        ⊎ (((again r.0).1 ≡ ok w) × ((after_save v again r).0 ≡ (again r.0).0))
  unfolding after_save
  after_save-ok (s, ok _) w h = inl (refl, ok_injective h, refl)
  after_save-ok (s, err e) w h = elim (Bool-cases (is_token_exists e)) [
    | inl k ↦ inr (rw (k, after_save) at h, rw (k, after_save) refl)
    | inr k ↦ absurd (let f = rw (k, after_save) at h in cc)
  ]
  after_save-ok (s, panic) w h = absurd cc

-- a new value is one of the machine
new_value-IsValid : (draws : Draws) (v w : Value) → new_value draws v ≡ ok w → IsValid w
unfolding new_value
new_value-IsValid draws (int32 n) w h =
    let (b, e, k) = >>=-eq_ok (random_read draws 4) _ h in
    let (size, is_bytes) = random_read-ok draws 4 b e in
    let bound : le_value b < 2 ^ 32 = rw size at (le_value_bound b is_bytes) in
    rw (sym (ok_injective k)) bound
new_value-IsValid draws (int64 n) w h =
    let (b, e, k) = >>=-eq_ok (random_read draws 8) _ h in
    let (size, is_bytes) = random_read-ok draws 8 b e in
    let bound : le_value b < 2 ^ 64 = rw size at (le_value_bound b is_bytes) in
    rw (sym (ok_injective k)) bound
new_value-IsValid draws (bytes v) w h =
    let (b, e, k) = >>=-eq_ok (random_read draws (length v)) _ h in rw (sym (ok_injective k)) tt
new_value-IsValid draws (str v) w h = rw (sym (ok_injective h)) tt
new_value-IsValid draws (email v) w h =
    let (b, e, k) = >>=-eq_ok (random_email draws (length v)) _ h in rw (sym (ok_injective k)) tt
new_value-IsValid draws other w h = absurd cc

pub typed-ok :
    (expected t : TokenType) (e encoded : Bytes)
    → typed expected t e ≡ ok encoded
    → (t ≡ expected) × (e ≡ encoded)
typed-ok expected t e encoded h = elim (Bool-cases (t == expected)) [
  | inl p ↦ ((==_iff t expected).0 p, ok_injective (rw p at h))
  | inr p ↦ absurd (let k = rw p at h in cc)
]

-- a value comes back from its encoding
pub bytes_to_golang_value-encode_to_bytes :
    (v : Value) (t : TokenType) (encoded : Bytes)
    → IsValid v
    → encode_to_bytes v t ≡ ok encoded
    → bytes_to_golang_value encoded t ≡ ok v
unfolding encode_to_bytes bytes_to_golang_value
bytes_to_golang_value-encode_to_bytes (int32 n) t encoded valid h =
    let (p, q) = typed-ok 1 t (le_bytes 4 n) encoded h in
    rw (p, sym q) (rw (decode_int32-le_bytes n valid) refl)
bytes_to_golang_value-encode_to_bytes (int64 n) t encoded valid h =
    let (p, q) = typed-ok 2 t (le_bytes 8 n) encoded h in
    rw (p, sym q) (rw (decode_int64-le_bytes n valid) refl)
bytes_to_golang_value-encode_to_bytes (email e) t encoded valid h =
    let (p, q) = typed-ok 5 t e encoded h in rw (p, q) refl
bytes_to_golang_value-encode_to_bytes (bytes b) t encoded valid h =
    let (p, q) = typed-ok 4 t b encoded h in rw (p, q) refl
bytes_to_golang_value-encode_to_bytes (str s) t encoded valid h =
    let (p, q) = typed-ok 3 t s encoded h in rw (p, q) refl
bytes_to_golang_value-encode_to_bytes other t encoded valid h = absurd cc

module _ (sha256 : Bytes → Bytes) (codec : TokenValueCodec) where
  open codec use {encode_token_value, token_value_from_data, from_data-encode}

  original-encode :
      (v : Value) (t : TokenType) (encoded content : Bytes)
      → IsValid v
      → encode_to_bytes v t ≡ ok encoded
      → encode_token_value encoded t ≡ ok content
      → original codec content t ≡ ok v
  unfolding original
  original-encode v t encoded content valid h k =
      rw (from_data-encode encoded t content k)
        (rw (==_refl t) (bytes_to_golang_value-encode_to_bytes v t encoded valid h))

  -- the entry that is saved for a new token
  record IsEntry (v : Value) (c : TokenContext) (t : TokenType) (entry : Entry) : Type 0 where
    encoded : Bytes
    is_encoded : encode_to_bytes entry.value t ≡ ok encoded
    is_key : entry.key ≡ token_key sha256 encoded c t
    is_original : original codec entry.content t ≡ ok v
    is_valid : IsValid entry.value

  new_entry-IsEntry :
      (draws : Draws) (v : Value) (c : TokenContext) (t : TokenType) (entry : Entry)
      → IsValid v
      → new_entry sha256 codec draws v c t ≡ ok entry
      → IsEntry v c t entry
  unfolding new_entry
  new_entry-IsEntry draws v c t entry valid h =
      let (fresh, e1, h1) = >>=-eq_ok (new_value draws v) _ h in
      let (encoded_new, e2, h2) = >>=-eq_ok (encode_to_bytes fresh t) _ h1 in
      let (encoded, e3, h3) = >>=-eq_ok (encode_to_bytes v t) _ h2 in
      let (content, e4, h4) = >>=-eq_ok (encode_token_value encoded t) _ h3 in
      rw (sym (ok_injective h4)) (record {
        encoded = encoded_new;
        is_encoded = e2;
        is_key = refl;
        is_original = original-encode v t encoded content valid e3 e4;
        is_valid = new_value-IsValid draws v fresh e1;
      })

  module _ (st : TokenStorage) where
    open st use {Store, save, get, view, save-some, save-Keeps, get-some}

    -- The storage has what the token stands for.
    pub record IsKept (token v : Value) (c : TokenContext) (t : TokenType) (s : Store)
        : Type 0 where
      pub encoded : Bytes
      pub content : Bytes
      pub is_encoded : encode_to_bytes token t ≡ ok encoded
      pub is_stored : view s (token_key sha256 encoded c t) c ≡ some content
      pub is_original : original codec content t ≡ ok v
      pub is_valid : IsValid token

    pub generate_new_value-Extends :
        (k : ℕ) (tries : ℕ → Try) (v : Value) (c : TokenContext) (t : TokenType) (s : Store)
        → Extends st s (generate_new_value sha256 codec st k tries v c t s).0
    unfolding generate_new_value
    generate_new_value-Extends zero tries v c t s = λ id c' d h. h
    generate_new_value-Extends (suc k) tries v c t s = λ id c' d h.
        elim (Outcome-cases (new_entry sha256 codec (tries k).draws v c t)) [
          | inl (entry, e) ↦
              rw (e, generate_new_value)
                (let kept = save-Keeps (tries k).entropy entry.key c entry.content s id c' d h in
                  elim (after_save-store entry.value
                    (λ s1. generate_new_value sha256 codec st k tries v c t s1)
                    (save (tries k).entropy entry.key c entry.content s)) [
                      | inl f ↦ rw f kept
                      | inr f ↦ rw f (generate_new_value-Extends k tries v c t _ id c' d kept)
                    ])
          | inr (inl (e', e)) ↦ rw (e, generate_new_value) h
          | inr (inr e) ↦ rw (e, generate_new_value) h
        ]

    IsKept-entry :
        (e : Entropy) (v : Value) (c : TokenContext) (t : TokenType) (entry : Entry) (s : Store)
        → (save e entry.key c entry.content s).1 ≡ ok tt
        → IsEntry v c t entry
        → IsKept entry.value v c t (save e entry.key c entry.content s).0
    IsKept-entry e v c t entry s saved i = record {
      encoded = i.encoded;
      content = entry.content;
      is_encoded = i.is_encoded;
      is_stored =
          let put = save-some e entry.key c entry.content s saved in
          subst
            (λ (key : Bytes).
              view (save e entry.key c entry.content s).0 key c ≡ some entry.content)
            i.is_key put;
      is_original = i.is_original;
      is_valid = i.is_valid;
    }

    generate_new_value-IsKept :
        (k : ℕ) (tries : ℕ → Try) (v : Value) (c : TokenContext) (t : TokenType) (s : Store)
        (token : Value)
        → IsValid v
        → (generate_new_value sha256 codec st k tries v c t s).1 ≡ ok token
        → IsKept token v c t (generate_new_value sha256 codec st k tries v c t s).0
    unfolding generate_new_value
    generate_new_value-IsKept zero tries v c t s token valid h = absurd cc
    generate_new_value-IsKept (suc k) tries v c t s token valid h =
        elim (Outcome-cases (new_entry sha256 codec (tries k).draws v c t)) [
          | inl (entry, e) ↦
              rw (e, generate_new_value)
                (elim (after_save-ok entry.value
                  (λ s1. generate_new_value sha256 codec st k tries v c t s1)
                  (save (tries k).entropy entry.key c entry.content s) token
                  (rw (e, generate_new_value) at h)) [
                    | inl (saved, same, f) ↦
                        rw (f, sym same)
                          (IsKept-entry (tries k).entropy v c t entry s saved
                            (new_entry-IsEntry (tries k).draws v c t entry valid e))
                    | inr (again, f) ↦
                        rw f (generate_new_value-IsKept k tries v c t _ token valid again)
                  ])
          | inr (inl (e', e)) ↦ absurd (let f = rw (e, generate_new_value) at h in cc)
          | inr (inr e) ↦ absurd (let f = rw (e, generate_new_value) at h in cc)
        ]

    pub anonymize-IsKept :
        (tries : ℕ → Try) (v : Value) (c : TokenContext) (t : TokenType) (s : Store) (token : Value)
        → IsValid v
        → (anonymize sha256 codec st tries v c t s).1 ≡ ok token
        → IsKept token v c t (anonymize sha256 codec st tries v c t s).0
    unfolding anonymize
    anonymize-IsKept tries v c t s token valid h = elim (Outcome-cases (check_type v t)) [
      | inl (_, e) ↦
          rw (e, anonymize)
            (generate_new_value-IsKept data_generation_loop_limit tries v c t s token valid
              (rw (e, anonymize) at h))
      | inr (inl (e', e)) ↦ absurd (let f = rw (e, anonymize) at h in cc)
      | inr (inr e) ↦ absurd (let f = rw (e, anonymize) at h in cc)
    ]

    pub anonymize-Extends :
        (tries : ℕ → Try) (v : Value) (c : TokenContext) (t : TokenType) (s : Store)
        → Extends st s (anonymize sha256 codec st tries v c t s).0
    unfolding anonymize
    anonymize-Extends tries v c t s = λ id c' d h. elim (Outcome-cases (check_type v t)) [
      | inl (_, e) ↦
          rw (e, anonymize)
            (generate_new_value-Extends data_generation_loop_limit tries v c t s id c' d h)
      | inr (inl (e', e)) ↦ rw (e, anonymize) h
      | inr (inr e) ↦ rw (e, anonymize) h
    ]

    -- `Deanonymize` gives back the value that `Anonymize` returned a token for, with any storage
    -- that keeps its contract, whatever else was added to it since; an integer is one of the
    -- machine.
    pub deanonymize-anonymize :
        (tries : ℕ → Try) (v : Value) (c : TokenContext) (t : TokenType) (s s' : Store)
        (token : Value) (e : Entropy)
        → IsValid v
        → (anonymize sha256 codec st tries v c t s).1 ≡ ok token
        → Extends st (anonymize sha256 codec st tries v c t s).0 s'
        → (deanonymize sha256 codec st e token c t s').1 ≡ ok v
    unfolding deanonymize
    deanonymize-anonymize tries v c t s s' token e valid h more =
        let kept = anonymize-IsKept tries v c t s token valid h in
        let there = more (token_key sha256 kept.encoded c t) c kept.content kept.is_stored in
        rw (kept.is_encoded, deanonymize)
          (rw (get-some e (token_key sha256 kept.encoded c t) c s' kept.content there, deanonymize)
            kept.is_original)
