-- ===== src/Mysql/RoundTrip.antt =====
-- What `PutLengthEncodedInt` and `PutLengthEncodedString` write is read back.
use acra.Base.{
  Option, ℕ, suc, ◌+◌, ◌-◌, ◌%◌, ◌<◌, ◌≤◌, ◌≡◌, refl, sym, ap, ◌∙◌, false, none, some, ◌∷◌, ◌++◌,
  Bytes, ltb, leb, length, take, drop, arith, le→ltb, le→leb, leb→le, ltb→lt, Bool-cases, inl, inr,
  take-append, drop-append, length-append, append_assoc,
}
use acra.Base.Words.{le_bytes, le_value, le_value-le_bytes, length-le_bytes, room}
use acra.Base.Outcome.{ok}
use acra.Mysql.{
  number, wide, text_of, skip_of, length_encoded_int, length_encoded_string,
  skip_length_encoded_string, put_length_encoded_int, put_length_encoded_string,
}

wide-le_bytes :
    (k n : ℕ) (rest : Bytes) → n < room k → wide k (le_bytes k n ++ rest) ≡ number n (suc k)
wide-le_bytes k n rest h =
    let b : Bytes = le_bytes k n ++ rest in
    let size = length-le_bytes k n in
    let total = length-append (le_bytes k n) rest in
    let long : ltb (length b) k ≡ false = le→ltb (length b) k (omega arith) in
    let front : take k b ≡ le_bytes k n =
      ap (λ (j : ℕ). take j b) (sym size) ∙ take-append (le_bytes k n) rest in
    rw long (
      ap (λ (v : Bytes). number (le_value v) (suc k)) front
      ∙ ap (λ (v : ℕ). number v (suc k)) (le_value-le_bytes k n h))

marker-below : (n : ℕ) (rest : Bytes) → n ≤ 250 → length_encoded_int (n ∷ rest) ≡ number n 1
unfolding length_encoded_int
marker-below n rest h = ground arith

-- `LengthEncodedInt` reads back any `uint64` that `PutLengthEncodedInt` wrote, whatever follows, and
-- tells how many bytes it took.
length_encoded_int-put :
    (n : ℕ) (rest : Bytes)
    → n < 0x10000000000000000
    → length_encoded_int (put_length_encoded_int n ++ rest)
      ≡ number n (length (put_length_encoded_int n))
unfolding length_encoded_int put_length_encoded_int
length_encoded_int-put n rest h = elim (Bool-cases (leb n 250)) [
  | inl one ↦ rw one (marker-below n rest (leb→le n 250 one))
  | inr e1 ↦ elim (Bool-cases (leb n 0xffff)) [
    | inl two ↦ rw (e1, two) (wide-le_bytes 2 n rest (omega (arith, leb→le n 0xffff two)))
    | inr e2 ↦ elim (Bool-cases (leb n 0xffffff)) [
      | inl three ↦
          rw (e1, e2, three) (wide-le_bytes 3 n rest (omega (arith, leb→le n 0xffffff three)))
      | inr e3 ↦ rw (e1, e2, e3) (wide-le_bytes 8 n rest h)
    ]
  ]
]

text_of-number :
    (b : Bytes) (num n : ℕ)
    → n + num < 0x8000000000000000
    → n + num ≤ length b
    → text_of b (number num n)
      ≡ ok (record { content = some (take num (drop n b)); n = n + num; error = none })
text_of-number b num n small fits =
    let e : (n + num) % 0x10000000000000000 ≡ n + num = omega arith in
    let e2 : n + num - n ≡ num = omega arith in
    let positive : ltb 0x7fffffffffffffff (n + num) ≡ false =
      le→ltb 0x7fffffffffffffff (n + num) (omega arith) in
    let behind : ltb (n + num) n ≡ false = le→ltb (n + num) n (omega arith) in
    rw e (rw (positive, le→leb (n + num) (length b) fits, behind, e2) refl)

skip_of-number :
    (b : Bytes) (num n : ℕ)
    → n + num < 0x8000000000000000
    → n + num ≤ length b
    → skip_of b (number num n) ≡ (n + num, none)
skip_of-number b num n small fits =
    let e : (n + num) % 0x10000000000000000 ≡ n + num = omega arith in
    let fit = le→leb (n + num) (length b) fits in
    let positive : ltb 0x7fffffffffffffff (n + num) ≡ false =
      le→ltb 0x7fffffffffffffff (n + num) (omega arith) in
    elim (Bool-cases (ltb num 1)) [
      | inl none_left ↦
          let zero_num : n ≡ n + num = omega (arith, ltb→lt num 1 none_left) in
          rw none_left (ap (λ (j : ℕ). (j, none)) zero_num)
      | inr some_left ↦ rw some_left (rw e (rw (positive, fit) refl))
    ]

-- a string that is not NULL
length_encoded_string-put_some :
    (b rest : Bytes)
    → length (put_length_encoded_string (some b) ++ rest) < 0x8000000000000000
    → length_encoded_string (put_length_encoded_string (some b) ++ rest)
        ≡ ok (record {
          content = some b;
          n = length (put_length_encoded_string (some b));
          error = none;
        })
      × (skip_length_encoded_string (put_length_encoded_string (some b) ++ rest)
          ≡ (length (put_length_encoded_string (some b)), none))
unfolding length_encoded_string put_length_encoded_string skip_length_encoded_string
length_encoded_string-put_some b rest h =
    let m : Bytes = put_length_encoded_int (length b) in
    let x : Bytes = m ++ (b ++ rest) in
    let total = length-append (m ++ b) rest in
    let size = length-append m b in
    let shape : (m ++ b) ++ rest ≡ x = append_assoc m b rest in
    let whole : length x ≡ length ((m ++ b) ++ rest) = ap (length {A = ℕ}) (sym shape) in
    let read : length_encoded_int x ≡ number (length b) (length m) =
      length_encoded_int-put (length b) (b ++ rest) (omega arith) in
    let front : take (length b) (drop (length m) x) ≡ b =
      ap (take (length b)) (drop-append m (b ++ rest)) ∙ take-append b rest in
    rw (shape, read, size)
      (
        text_of-number x (length b) (length m) (omega arith) (omega arith)
            ∙ ap
                (λ (c : Bytes).
                  ok (record { content = some c; n = length m + length b; error = none }))
                front,
        skip_of-number x (length b) (length m) (omega arith) (omega arith),
      )

-- LengthEncodedString reads back what PutLengthEncodedString wrote, a string or NULL, whatever
-- follows, and both it and SkipLengthEncodedString stop where the rest begins, if all is shorter
-- than 2^63.
pub length_encoded_string-put :
    (v : Option Bytes) (rest : Bytes)
    → length (put_length_encoded_string v ++ rest) < 0x8000000000000000
    → length_encoded_string (put_length_encoded_string v ++ rest)
        ≡ ok (record { content = v; n = length (put_length_encoded_string v); error = none })
      × (skip_length_encoded_string (put_length_encoded_string v ++ rest)
          ≡ (length (put_length_encoded_string v), none))
unfolding length_encoded_int length_encoded_string put_length_encoded_string
    skip_length_encoded_string
length_encoded_string-put none rest h = (refl, refl)
length_encoded_string-put (some b) rest h = length_encoded_string-put_some b rest h
