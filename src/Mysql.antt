-- ===== src/Mysql.antt =====
-- Length-encoded integers and strings of the MySQL protocol: decryptor/mysql/base/utils.go. A nil
-- slice is `none`.
pub mod Packet
pub mod RoundTrip
pub mod Malformed
use acra.Base.{
  ℕ, zero, suc, ◌+◌, ◌-◌, ◌*◌, ◌/◌, ◌%◌, ◌<◌, ◌≡◌, Bool, true, false, not, ◌&&◌, ◌||◌, Option, none,
  some, List, [], ◌∷◌, ◌++◌, ◌==◌, Bytes, if◌then◌else◌, ltb, leb, length, take, drop, get_or,
}
use acra.Base.Words.{le_bytes, le_value, is_negative}
use acra.Base.Outcome.{Outcome, ok, err, panic, ◌>>=◌}

pub data MysqlError : Type 0 where
  malform_packet eof : MysqlError

-- what `LengthEncodedInt` returns
pub record Number : Type 0 where
  pub num : ℕ
  pub is_null : Bool
  pub n : ℕ
  pub error : Option MysqlError

abbrev pub number : ℕ → ℕ → Number
number num n = record { num = num; is_null = false; n = n; error = none }

abbrev pub no_number : Number
no_number = record { num = 0; is_null = false; n = 0; error = some malform_packet }

-- A value of k bytes behind the marker.
abbrev pub wide : ℕ → Bytes → Number
wide k rest = if ltb (length rest) k then no_number else number (le_value (take k rest)) (suc k)

-- `LengthEncodedInt`
unfoldable pub length_encoded_int : Bytes → Number
length_encoded_int [] = no_number
length_encoded_int (b ∷ rest) =
    if b == 0xfb
    then record { num = 0; is_null = true; n = 1; error = none }
    else if b == 0xfc
    then wide 2 rest
    else if b == 0xfd
    then wide 3 rest
    else if b == 0xfe
    then wide 8 rest
    else number b 1

-- what `LengthEncodedString` and `SkipLengthEncodedString` return
pub record Text : Type 0 where
  pub content : Option Bytes
  pub n : ℕ
  pub error : Option MysqlError

-- `n += int(num)`, and the slice of the data before `n`; sums are those of `int`.
abbrev pub end_of : Number → ℕ
end_of r = (r.n + r.num) % 0x10000000000000000

-- `LengthEncodedString`: only the end is compared with the length of the data, and where it is
-- negative or before the start, the slice panics. An error of `LengthEncodedInt` is returned only
-- where it is a null.
abbrev pub text_of : Bytes → Number → Outcome MysqlError Text
text_of data_bytes r =
    if r.is_null
    then ok (record { content = none; n = r.n; error = r.error })
    else if is_negative (end_of r)
    then panic
    else if leb (end_of r) (length data_bytes)
    then (if ltb (end_of r) r.n
        then panic
        else ok (record {
          content = some (take (end_of r - r.n) (drop r.n data_bytes));
          n = end_of r;
          error = none;
        }))
    else ok (record { content = none; n = end_of r; error = some eof })

unfoldable pub length_encoded_string : Bytes → Outcome MysqlError Text
unfolding length_encoded_int
length_encoded_string data_bytes = text_of data_bytes (length_encoded_int data_bytes)

-- `SkipLengthEncodedString`; the test passes for a negative end
abbrev pub skip_of : Bytes → Number → ℕ × Option MysqlError
skip_of data_bytes r = elim r.error [
  | some e ↦ (0, some e)
  | none ↦
      if ltb r.num 1
      then (r.n, none)
      else if is_negative (end_of r) || leb (end_of r) (length data_bytes)
      then (end_of r, none)
      else (end_of r, some eof)
]

unfoldable pub skip_length_encoded_string : Bytes → ℕ × Option MysqlError
unfolding length_encoded_int
skip_length_encoded_string data_bytes = skip_of data_bytes (length_encoded_int data_bytes)

-- `PutLengthEncodedInt`, for a `uint64`
unfoldable pub put_length_encoded_int : ℕ → Bytes
put_length_encoded_int n =
    if leb n 250
    then n ∷ []
    else if leb n 0xffff
    then 0xfc ∷ le_bytes 2 n
    else if leb n 0xffffff
    then 0xfd ∷ le_bytes 3 n
    else 0xfe ∷ le_bytes 8 n

-- `PutLengthEncodedString`
unfoldable pub put_length_encoded_string : Option Bytes → Bytes
unfolding put_length_encoded_int
put_length_encoded_string none = 0xfb ∷ []
put_length_encoded_string (some b) = put_length_encoded_int (length b) ++ b
