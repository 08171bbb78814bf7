-- ===== src/Mysql/Malformed.antt =====
-- Packets that are cut short, or that state a length of 2^63 and more.
use acra.Base.{
  ℕ, ◌<◌, ◌≤◌, ◌≡◌, refl, true, false, none, some, [], ◌∷◌, Bytes, ltb, leb, length, take, arith,
  le→ltb, le→leb, length-take,
}
use acra.Base.Words.{le_value, le_value_bound, IsBytes, room}
use acra.Base.Outcome.{ok, panic}
use acra.Mysql.{
  malform_packet, number, no_number, text_of, length_encoded_int, length_encoded_string,
  skip_length_encoded_string,
}

-- A string whose length is malformed is read as an empty string, without an error, by
-- `LengthEncodedString`, while `SkipLengthEncodedString` reports the malformed packet.
pub length_encoded_string-malformed :
    (b : Bytes)
    → length_encoded_int b ≡ no_number
    → (length_encoded_string b ≡ ok (record { content = some []; n = 0; error = none }))
      × (skip_length_encoded_string b ≡ (0, some malform_packet))
unfolding length_encoded_string skip_length_encoded_string
length_encoded_string-malformed b h =
    let none_of : leb 0 (length b) ≡ true = le→leb 0 (length b) (omega arith) in
    rw h (rw none_of refl, refl)

text_of-panic :
    (b : Bytes) (num : ℕ)
    → 9 ≤ length b
    → 0x8000000000000000 ≤ num
    → num < 0x10000000000000000
    → text_of b (number num 9) ≡ panic
text_of-panic b num long big word = ground arith

-- A string of at least nine bytes that states a length from 2^63 up, in eight bytes behind the
-- marker, makes `LengthEncodedString` panic.
pub length_encoded_string-panic :
    (rest : Bytes)
    → IsBytes (take 8 rest)
    → 8 ≤ length rest
    → 0x8000000000000000 ≤ le_value (take 8 rest)
    → length_encoded_string (0xfe ∷ rest) ≡ panic
unfolding length_encoded_string
length_encoded_string-panic rest are_bytes long big =
    let enough : ltb (length rest) 8 ≡ false = le→ltb (length rest) 8 long in
    let size = length-take 8 rest long in
    let bound : le_value (take 8 rest) < room 8 =
      rw size at (le_value_bound (take 8 rest) are_bytes) in
    rw enough (text_of-panic (0xfe ∷ rest) (le_value (take 8 rest)) (omega arith) big bound)
