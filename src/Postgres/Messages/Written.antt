-- ===== src/Postgres/Messages/Written.antt =====
-- The arrays of a Bind packet are written as they were read.
use acra.Base.{
  ℕ, zero, suc, ◌+◌, ◌*◌, ◌/◌, ◌%◌, drop-add, length-drop, ◌≤◌, ◌≡◌, refl, sym, ap, ◌∙◌, Option,
  List, [], ◌∷◌, ◌++◌, Bytes, ◌==◌, ltb, Bool-cases, inl, inr, arith, length, take, drop,
  append_assoc, ==_iff, le→ltb, take-append-drop, length-take,
}
use acra.Base.Words.{IsBytes}
use acra.Base.Outcome.{Outcome, ok, >>=-eq_ok, ok_pair}
use acra.Wire.{WireError, be_bytes, be_value}
use acra.Postgres.Messages.{
  read_items, read_uint16_array, read_parameter, read_parameters, read_parameter_array, write_items,
  write_uint16_array, write_parameter, write_parameters, write_parameter_array,
}

pub IsBytes-behind : (front rest : Bytes) → IsBytes (front ++ rest) → IsBytes rest
IsBytes-behind [] rest h = h
IsBytes-behind (x ∷ front) rest h = IsBytes-behind front rest h.1

-- two bytes, and four, as the number that they are
be_bytes-be_value_16 :
    (b : Bytes) → IsBytes b → 2 ≤ length b → be_bytes 2 (be_value (take 2 b)) ≡ take 2 b
be_bytes-be_value_16 (x ∷ y ∷ b) small h =
    let e : (x * 256 + (y * 1 + 0)) / 256 % 256 ≡ x = omega arith in
    let f : (x * 256 + (y * 1 + 0)) / 1 % 256 ≡ y = omega arith in rw (e, f) refl
be_bytes-be_value_16 _ small h = absurd (omega arith)

be_bytes-be_value_32 :
    (b : Bytes) → IsBytes b → 4 ≤ length b → be_bytes 4 (be_value (take 4 b)) ≡ take 4 b
be_bytes-be_value_32 (x ∷ y ∷ z ∷ w ∷ b) small h = ground arith
be_bytes-be_value_32 _ small h = absurd (omega arith)

write_items-read :
    (n : ℕ) (b : Bytes)
    → IsBytes b
    → 2 * n ≤ length b
    → write_items (read_items n b) ++ drop (2 * n) b ≡ b
write_items-read zero b small h = refl
write_items-read (suc n) b small h =
    let e : 2 * suc n ≡ 2 + 2 * n = omega arith in
    let two = be_bytes-be_value_16 b small (omega arith) in
    let rest = rw (sym (take-append-drop 2 b)) at small in
    rw (e, drop-add 2 (2 * n) b)
      (ap (λ (t : Bytes). t ++ write_items (read_items n (drop 2 b)) ++ drop (2 * n) (drop 2 b)) two
        ∙ append_assoc (take 2 b) (write_items (read_items n (drop 2 b))) (drop (2 * n) (drop 2 b))
        ∙ ap (◌++◌ (take 2 b)) (
            write_items-read n (drop 2 b) (IsBytes-behind (take 2 b) (drop 2 b) rest)
              (omega (arith, length-drop 2 b)))
        ∙ take-append-drop 2 b)

length-read_items : (n : ℕ) (b : Bytes) → length (read_items n b) ≡ n
length-read_items zero b = refl
length-read_items (suc n) b = ap suc (length-read_items n (drop 2 b))

IsBytes-drop : (n : ℕ) (b : Bytes) → IsBytes b → IsBytes (drop n b)
IsBytes-drop n b small = IsBytes-behind (take n b) (drop n b) (rw (take-append-drop n b) small)

be_value_16_bound : (b : Bytes) → IsBytes b → be_value (take 2 b) ≤ 0xffff
be_value_16_bound [] h = omega arith
be_value_16_bound (x ∷ []) h = omega arith
be_value_16_bound (x ∷ y ∷ b) h = omega arith

be_value_32_bound : (b : Bytes) → IsBytes b → 4 ≤ length b → be_value (take 4 b) ≤ 0xffffffff
be_value_32_bound (x ∷ y ∷ z ∷ w ∷ b) h enough = omega arith
be_value_32_bound _ h enough = absurd (omega arith)

-- what was read of some bytes is written again as them
abbrev pub Rewrites : Outcome WireError Bytes → Bytes → Bytes → Type 0
Rewrites written rest b = (out : Bytes) × (written ≡ ok out) × (out ++ rest ≡ b)

pub read_uint16_array-Rewrites :
    (b : Bytes) {values : List ℕ} {rest : Bytes}
    → IsBytes b
    → read_uint16_array b ≡ ok (values, rest)
    → Rewrites (write_uint16_array values) rest b × IsBytes rest
unfolding read_uint16_array write_uint16_array
read_uint16_array-Rewrites b small h = elim (Bool-cases (ltb (length b) 2)) [
  | inl short ↦ let e = rw short at h in cc
  | inr enough ↦
      let n = be_value (take 2 b) in
      elim (Bool-cases (ltb (length (drop 2 b)) (2 * n))) [
        | inl cut ↦ let e = rw (enough, cut) at h in cc
        | inr whole ↦
            let parts = ok_pair (rw (enough, whole) at h) in
            let count = length-read_items n (drop 2 b) in
            let two = be_bytes-be_value_16 b small (ground arith) in
            let small' = IsBytes-drop 2 b small in
            rw (sym parts.0, sym parts.1)
              (
                (
                  be_bytes 2 n ++ write_items (read_items n (drop 2 b)),
                  rw (count, le→ltb 0xffff n (omega (arith, be_value_16_bound b small))) refl,
                  append_assoc (be_bytes 2 n) (write_items (read_items n (drop 2 b)))
                        (drop (2 * n) (drop 2 b))
                      ∙ ap (λ (t : Bytes). be_bytes 2 n ++ t)
                          (write_items-read n (drop 2 b) small' (ground arith))
                      ∙ ap (λ (t : Bytes). t ++ drop 2 b) two
                      ∙ take-append-drop 2 b,
                ),
                IsBytes-drop (2 * n) (drop 2 b) small',
              )
      ]
]

read_parameter-Rewrites :
    (b : Bytes) {value : Option Bytes} {rest : Bytes}
    → IsBytes b
    → read_parameter b ≡ ok (value, rest)
    → Rewrites (write_parameter value) rest b × IsBytes rest
unfolding read_parameter write_parameter
read_parameter-Rewrites b small h = elim (Bool-cases (ltb (length b) 4)) [
  | inl short ↦ let e = rw short at h in cc
  | inr enough ↦
      let n = be_value (take 4 b) in
      let long : 4 ≤ length b = ground arith in
      let four = be_bytes-be_value_32 b small long in
      let small' = IsBytes-drop 4 b small in
      elim (Bool-cases (n == 0xffffffff)) [
        | inl is_null ↦
            let parts = ok_pair (rw (enough, is_null) at h) in
            rw (sym parts.0, sym parts.1)
              (
                (
                  be_bytes 4 0xffffffff,
                  refl,
                  ap (λ (t : ℕ). be_bytes 4 t ++ drop 4 b) (sym ((==_iff n 0xffffffff).0 is_null))
                      ∙ ap (λ (t : Bytes). t ++ drop 4 b) four
                      ∙ take-append-drop 4 b,
                ),
                small',
              )
        | inr present ↦ elim (Bool-cases (ltb (length (drop 4 b)) n)) [
          | inl cut ↦ let e = rw (enough, present, cut) at h in cc
          | inr whole ↦
              let parts = ok_pair (rw (enough, present, whole) at h) in
              let size = length-take n (drop 4 b) (ground arith) in
              rw (sym parts.0, sym parts.1)
                (
                  (
                    be_bytes 4 n ++ take n (drop 4 b),
                    rw (size, le→ltb 0xffffffff n (be_value_32_bound b small long)) refl,
                    append_assoc (be_bytes 4 n) (take n (drop 4 b)) (drop n (drop 4 b))
                        ∙ ap (λ (t : Bytes). be_bytes 4 n ++ t) (take-append-drop n (drop 4 b))
                        ∙ ap (λ (t : Bytes). t ++ drop 4 b) four
                        ∙ take-append-drop 4 b,
                  ),
                  IsBytes-drop n (drop 4 b) small',
                )
        ]
      ]
]

read_parameters-Rewrites :
    (n : ℕ) (b : Bytes) {values : List (Option Bytes)} {rest : Bytes}
    → IsBytes b
    → read_parameters n b ≡ ok (values, rest)
    → Rewrites (write_parameters values) rest b × IsBytes rest × (length values ≡ n)
unfolding read_parameters write_parameters
read_parameters-Rewrites zero b small h =
    let parts = ok_pair h in rw (sym parts.0, sym parts.1) (([], refl, refl), small, refl)
read_parameters-Rewrites (suc n) b {rest = rest} small h =
    let ((value, b1), first, h1) = >>=-eq_ok (read_parameter b) _ h in
    let ((values, end), others, made) = >>=-eq_ok (read_parameters n b1) _ h1 in
    let parts = ok_pair made in
    let ((out, written, e), small1) = read_parameter-Rewrites b small first in
    let ((outs, all_written, es), small2, count) = read_parameters-Rewrites n b1 small1 others in
    rw (sym parts.0, sym parts.1)
      (
        (
          out ++ outs,
          rw (written, all_written) refl,
          append_assoc out outs end ∙ ap (◌++◌ out) es ∙ e,
        ),
        small2,
        ap suc count,
      )

pub read_parameter_array-Rewrites :
    (b : Bytes) {values : List (Option Bytes)} {rest : Bytes}
    → IsBytes b
    → read_parameter_array b ≡ ok (values, rest)
    → Rewrites (write_parameter_array values) rest b × IsBytes rest
unfolding read_parameter_array write_parameter_array
read_parameter_array-Rewrites b {rest = rest} small h = elim (Bool-cases (ltb (length b) 2)) [
  | inl short ↦ let e = rw short at h in cc
  | inr enough ↦
      let n = be_value (take 2 b) in
      let two = be_bytes-be_value_16 b small (ground arith) in
      let ((out, written, e), small', count) =
        read_parameters-Rewrites n (drop 2 b) (IsBytes-drop 2 b small) (rw enough at h) in
      (
        (
          be_bytes 2 n ++ out,
          rw (count, le→ltb 0xffff n (be_value_16_bound b small), written) refl,
          append_assoc (be_bytes 2 n) out rest
              ∙ ap (λ (t : Bytes). be_bytes 2 n ++ t) e
              ∙ ap (λ (t : Bytes). t ++ drop 2 b) two
              ∙ take-append-drop 2 b,
        ),
        small',
      )
]
