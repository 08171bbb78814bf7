-- ===== src/Escape/RoundTrip.antt =====
-- `DecodeOctal` reads back what `EncodeToOctal` wrote.
use acra.Base.{
  ℕ, ◌+◌, ◌*◌, ◌/◌, ◌%◌, ◌<◌, ◌≡◌, refl, sym, ap, ◌∙◌, true, false, [], ◌∷◌, ◌==◌, Bytes, arith,
  Bool-cases, inl, inr, ==_iff, ne→==,
}
use acra.Base.Words.{IsBytes}
use acra.Base.Outcome.{ok}
use acra.Escape.{
  backslash, is_printable, encode_byte, encode_to_octal, is_octal, in_front, decode_octal,
}

decode-plain :
    (c : ℕ) (rest : Bytes)
    → is_printable c ≡ true
    → (c == backslash) ≡ false
    → decode_octal (c ∷ rest) ≡ in_front c (decode_octal rest)
unfolding decode_octal
decode-plain c [] p n = rw (p, n) refl
decode-plain c (x ∷ []) p n = rw (p, n) refl
decode-plain c (x ∷ y ∷ []) p n = rw (p, n) refl
decode-plain c (x ∷ y ∷ z ∷ rest) p n = rw (p, n) refl

decode-doubled :
    (rest : Bytes)
    → decode_octal (backslash ∷ backslash ∷ rest) ≡ in_front backslash (decode_octal rest)
unfolding decode_octal
decode-doubled [] = refl
decode-doubled (x ∷ []) = refl
decode-doubled (x ∷ y ∷ rest) = refl

is_octal_digit : (d : ℕ) → d < 8 → is_octal (48 + d) ≡ true
is_octal_digit d h = ground arith

decode-octal_digits :
    (x y z : ℕ) (rest : Bytes)
    → x < 8
    → y < 8
    → z < 8
    → decode_octal (backslash ∷ (48 + x) ∷ (48 + y) ∷ (48 + z) ∷ rest)
      ≡ in_front ((x * 64 + y * 8 + z) % 256) (decode_octal rest)
unfolding decode_octal
decode-octal_digits x y z rest hx hy hz =
    let single : (48 + x == backslash) ≡ false =
      ne→== (48 + x) backslash (λ e. (omega (arith, e))) in
    rw (single, is_octal_digit x hx, is_octal_digit y hy, is_octal_digit z hz)
      (ap (λ (b : ℕ). in_front b (decode_octal rest)) (omega arith))

decode-digits :
    (c : ℕ) (rest : Bytes)
    → c < 256
    → decode_octal (backslash ∷ (48 + c / 64) ∷ (48 + (c / 8) % 8) ∷ (48 + c % 8) ∷ rest)
      ≡ in_front c (decode_octal rest)
decode-digits c rest h =
    decode-octal_digits (c / 64) ((c / 8) % 8) (c % 8) rest (omega arith) (omega arith)
      (omega arith)
    ∙ ap (λ (b : ℕ). in_front b (decode_octal rest)) (omega arith)

-- `DecodeOctal` gives back any bytes that `EncodeToOctal` encoded.
pub decode_octal-encode_to_octal :
    (bs : Bytes) → IsBytes bs → decode_octal (encode_to_octal bs) ≡ ok bs
unfolding encode_to_octal decode_octal
decode_octal-encode_to_octal [] h = refl
decode_octal-encode_to_octal (c ∷ cs) (small, h) =
    let rest = decode_octal-encode_to_octal cs h in
    elim (Bool-cases (c == backslash)) [
      | inl e ↦
          rw (e, encode_byte)
            (decode-doubled (encode_to_octal cs)
              ∙ (ap (in_front backslash) rest
                  ∙ ap (λ (b : ℕ). ok (b ∷ cs)) (sym ((==_iff c backslash).0 e))))
      | inr n ↦ elim (Bool-cases (is_printable c)) [
        | inl p ↦
            rw (n, encode_byte, p) (decode-plain c (encode_to_octal cs) p n ∙ ap (in_front c) rest)
        | inr u ↦
            rw (n, encode_byte, u)
              (decode-digits c (encode_to_octal cs) small ∙ ap (in_front c) rest)
      ]
    ]
