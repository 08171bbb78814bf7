-- ===== src/Escape.antt =====
-- The escape format of PostgreSQL's bytea: `EncodeToOctal` and `DecodeOctal` of
-- utils/dbByteArrayEncoders.go.
pub mod RoundTrip
use acra.Base.{
  ℕ, zero, suc, ◌+◌, ◌-◌, ◌*◌, ◌/◌, ◌%◌, ◌≡◌, Bool, true, false, not, ◌&&◌, ◌||◌, List, [], ◌∷◌,
  ◌++◌, ◌==◌, Bytes, if◌then◌else◌, ltb, leb,
}
use acra.Base.Outcome.{Outcome, ok, err, panic, ◌>>=◌}

pub data EscapeError : Type 0 where
  decode_octal_string : EscapeError

abbrev pub backslash : ℕ
backslash = 92

abbrev pub is_printable : ℕ → Bool
is_printable c = leb 32 c && leb c 126

-- one byte of the output of `EncodeToOctal`
unfoldable pub encode_byte : ℕ → Bytes → Bytes
encode_byte c rest =
    if c == backslash
    then backslash ∷ backslash ∷ rest
    else if not (is_printable c)
    then backslash ∷ (48 + c / 64) ∷ (48 + (c / 8) % 8) ∷ (48 + c % 8) ∷ rest
    else c ∷ rest

-- `EncodeToOctal`
unfoldable pub encode_to_octal : Bytes → Bytes
unfolding encode_byte
encode_to_octal [] = []
encode_to_octal (c ∷ cs) = encode_byte c (encode_to_octal cs)

abbrev pub is_octal : ℕ → Bool
is_octal d = leb 48 d && leb d 55

-- a byte in front of what the loop of `DecodeOctal` decodes next
abbrev pub in_front : ℕ → Outcome EscapeError Bytes → Outcome EscapeError Bytes
in_front b (ok bs) = ok (b ∷ bs)
in_front b (err e) = err e
in_front b panic = panic

-- `DecodeOctal`; the value of three digits is kept to a byte.
unfoldable pub decode_octal : Bytes → Outcome EscapeError Bytes
decode_octal [] = ok []
decode_octal (ch ∷ []) =
    if not (is_printable ch)
    then err decode_octal_string
    else if not (ch == backslash)
    then ok (ch ∷ [])
    else err decode_octal_string
decode_octal (ch ∷ a ∷ []) =
    let next = decode_octal (a ∷ []) in
    if not (is_printable ch)
    then err decode_octal_string
    else if not (ch == backslash)
    then in_front ch next
    else if a == backslash
    then ok (backslash ∷ [])
    else err decode_octal_string
decode_octal (ch ∷ a ∷ b ∷ []) =
    let next = decode_octal (a ∷ b ∷ []) in
    let after_two = decode_octal (b ∷ []) in
    if not (is_printable ch)
    then err decode_octal_string
    else if not (ch == backslash)
    then in_front ch next
    else if a == backslash
    then in_front backslash after_two
    else err decode_octal_string
decode_octal (ch ∷ a ∷ b ∷ c ∷ rest) =
    let next = decode_octal (a ∷ b ∷ c ∷ rest) in
    let after_two = decode_octal (b ∷ c ∷ rest) in
    let after_four = decode_octal rest in
    if not (is_printable ch)
    then err decode_octal_string
    else if not (ch == backslash)
    then in_front ch next
    else if a == backslash
    then in_front backslash after_two
    else if not (is_octal a && is_octal b && is_octal c)
    then err decode_octal_string
    else in_front (((a - 48) * 64 + (b - 48) * 8 + (c - 48)) % 256) after_four
