-- ===== src/Tokens/Columns/RoundTrip.antt =====
-- A column that was tokenized on its way to the database comes back to the client.
use acra.Base.{
  ℕ, ◌+◌, ◌%◌, ◌^◌, ◌<◌, ◌≡◌, refl, sym, ap, false, Option, none, some, Bytes, ◌==◌, inl, inr,
  Bool-cases, arith, ltb,
}
use acra.Base.Decimal.{decimal, parse_int, parse_int-decimal, parse_int_bound}
use acra.Base.Outcome.{Outcome, ok, ◌>>=◌, Outcome-cases, ok_injective, >>=-eq_ok}
use acra.Tokens.Value.{
  TokenError, TokenType, TokenContext, TokenValueCodec, Value, IsValid, int32, int64, str, bytes,
  email, other, encode_to_bytes, format_int32,
}
use acra.Tokens.Storage.{Entropy, TokenStorage, Extends}
use acra.Tokens.Pseudo.{anonymize}
use acra.Tokens.Pseudo.Kept.{typed-ok, anonymize-IsKept, deanonymize-anonymize}
use acra.Tokens.Columns.{parsed, Setting, World, column_value, column_text, tokenize, detokenize}

parse_int-format_int32 :
    (n : ℕ) → n < 2 ^ 32 → (m : ℕ) × (parse_int (format_int32 n) ≡ some m) × (m % 2 ^ 32 ≡ n)
parse_int-format_int32 n h = elim (Bool-cases (ltb n 0x80000000)) [
  | inl e ↦ (n, rw e (parse_int-decimal n (omega arith)), omega arith)
  | inr e ↦ (
    n + 0xffffffff00000000,
    rw e (parse_int-decimal (n + 0xffffffff00000000) (omega arith)),
    omega arith,
  )
]

-- A value comes back from its text.
column_value-column_text :
    (v : Value) (t : TokenType) (encoded d : Bytes)
    → IsValid v
    → encode_to_bytes v t ≡ ok encoded
    → column_text v t ≡ ok d
    → column_value d t ≡ ok v
unfolding encode_to_bytes column_text column_value
column_value-column_text (int32 n) t encoded d valid h k =
    let (p, _) = typed-ok 1 t _ encoded h in
    let same : format_int32 n ≡ d = ok_injective (rw p at k) in
    let (m, parse, low) = parse_int-format_int32 n valid in
    rw (p, sym same) (rw parse (ap (λ (x : ℕ). ok (int32 x)) low))
column_value-column_text (int64 n) t encoded d valid h k =
    let (p, _) = typed-ok 2 t _ encoded h in
    let same : decimal n ≡ d = ok_injective (rw p at k) in
    rw (p, sym same) (rw (parse_int-decimal n valid) refl)
column_value-column_text (str s) t encoded d valid h k =
    let (p, _) = typed-ok 3 t _ encoded h in
    let same : s ≡ d = ok_injective (rw p at k) in rw (p, sym same) refl
column_value-column_text (bytes b) t encoded d valid h k =
    let (p, _) = typed-ok 4 t _ encoded h in
    let same : b ≡ d = ok_injective (rw p at k) in rw (p, sym same) refl
column_value-column_text (email e) t encoded d valid h k =
    let (p, _) = typed-ok 5 t _ encoded h in
    let same : e ≡ d = ok_injective (rw p at k) in rw (p, sym same) refl
column_value-column_text other t encoded d valid h k = absurd cc

-- The text that a value stands for comes back as: itself, or for an integer its shortest decimal
-- digits (of its lower 32 bits for an int32).
abbrev pub canonical : Bytes → TokenType → Outcome TokenError Bytes
canonical d t = column_value d t >>= λ v. column_text v t

parsed-ok : (o : Option ℕ) (n : ℕ) → parsed o ≡ ok n → o ≡ some n
parsed-ok none n h = absurd cc
parsed-ok (some m) n h = ap some (ok_injective h)

column_value-IsValid : (d : Bytes) (t : TokenType) (v : Value) → column_value d t ≡ ok v → IsValid v
unfolding column_value
column_value-IsValid d t v h = elim (Bool-cases (t == 1)) [
  | inl e1 ↦
      let (n, _, k) = >>=-eq_ok (parsed (parse_int d)) _ (rw e1 at h) in
      let low : n % 2 ^ 32 < 2 ^ 32 = omega arith in rw (sym (ok_injective k)) low
  | inr e1 ↦ elim (Bool-cases (t == 2)) [
    | inl e2 ↦
        let (n, p, k) = >>=-eq_ok (parsed (parse_int d)) _ (rw e2 at (rw e1 at h)) in
        rw (sym (ok_injective k)) (parse_int_bound d n (parsed-ok (parse_int d) n p))
    | inr e2 ↦ elim (Bool-cases (t == 3)) [
      | inl e3 ↦ rw (sym (ok_injective (rw (e1, e2, e3) at h))) tt
      | inr e3 ↦ elim (Bool-cases (t == 4)) [
        | inl e4 ↦ rw (sym (ok_injective (rw (e1, e2, e3, e4) at h))) tt
        | inr e4 ↦ elim (Bool-cases (t == 5)) [
          | inl e5 ↦ rw (sym (ok_injective (rw (e1, e2, e3, e4, e5) at h))) tt
          | inr e5 ↦ absurd (let f = rw (e1, e2, e3, e4, e5) at h in cc)
        ]
      ]
    ]
  ]
]

module _ (sha256 : Bytes → Bytes) (codec : TokenValueCodec) (st : TokenStorage) where
  open st use {Store}

  -- Where a column is not tokenized consistently, `Detokenize` of what `Tokenize` gave for a text
  -- gives the text back, or the canonical digits of its integer, with any storage that keeps its
  -- contract, whatever else was added to it since.
  pub detokenize-tokenize :
      (w : World st) (e : Entropy) (d token : Bytes) (c : TokenContext) (setting : Setting)
      (s s' : Store)
      → setting.is_consistent_tokenization ≡ false
      → (tokenize sha256 codec st w d c setting s).1 ≡ ok token
      → Extends st (tokenize sha256 codec st w d c setting s).0 s'
      → (detokenize sha256 codec st e token c setting s').1 ≡ canonical d setting.token_type
  unfolding tokenize detokenize
  detokenize-tokenize w e d token c setting s s' plain h more =
      let t = setting.token_type in
      elim (Outcome-cases (column_value d t)) [
        | inr (inl (e', g)) ↦ absurd (let f = rw (g, tokenize) at h in cc)
        | inr (inr g) ↦ absurd (let f = rw (g, tokenize) at h in cc)
        | inl (v, g) ↦
            let run = anonymize sha256 codec st w.tries v c t s in
            let valid = column_value-IsValid d t v g in
            let h1 = rw (plain, tokenize) at (rw (g, tokenize) at h) in
            let more1 = rw (plain, tokenize) at (rw (g, tokenize) at more) in
            let (x, made, h2) = >>=-eq_ok run.1 _ h1 in
            let kept = anonymize-IsKept sha256 codec st w.tries v c t s x valid made in
            let back =
              column_value-column_text x t kept.encoded token kept.is_valid kept.is_encoded h2 in
            let original =
              deanonymize-anonymize sha256 codec st w.tries v c t s s' x e valid made more1 in
            rw (g, canonical) (rw (back, detokenize) (rw (original, detokenize) refl))
      ]
