-- ===== src/Wire.antt =====
-- What the packets of both databases are read with and written with: `io.ReadFull`, big-endian
-- numbers (`encoding/binary`), and the errors of decryptor/postgresql and decryptor/mysql.
use acra.Base.{
  inl, inr, Bool-cases, leb→le, sym, length-append, ℕ, zero, suc, ◌+◌, ◌*◌, ◌/◌, ◌%◌, ◌≤◌, ◌≡◌,
  refl, ap, [], ◌∷◌, ◌++◌, Bytes, ◌==◌, if◌then◌else◌, leb, le→leb, length, take, drop, take-append,
  drop-append, copy_at, arith,
}
use acra.Base.Words.{room}
use acra.Base.Outcome.{Outcome, ok, err, ok_pair}

pub data WireError : Type 0 where
  -- `io.EOF` and `io.ErrUnexpectedEOF`
  eof unexpected_eof : WireError
  unsupported_packet_type : WireError
  invalid_payload_length : WireError
  terminator_not_found packet_truncated array_too_big : WireError
  unknown_format not_enough_formats : WireError
  -- an error of a part that is a parameter
  external : ℕ → WireError

-- `io.ReadFull` into n bytes, from a reader that gives these bytes and then ends
unfoldable pub read_full : ℕ → Bytes → Outcome WireError (Bytes × Bytes)
read_full n stream =
    if leb n (length stream)
    then ok (take n stream, drop n stream)
    else if length stream == 0
    then err eof
    else err unexpected_eof

-- `binary.BigEndian.PutUint…` for k bytes
abbrev pub be_bytes : ℕ → ℕ → Bytes
be_bytes zero n = []
be_bytes (suc k) n = ((n / room k) % 256) ∷ be_bytes k n

-- `binary.BigEndian.Uint…`
abbrev pub be_value : Bytes → ℕ
be_value [] = 0
be_value (b ∷ bs) = b * room (length bs) + be_value bs

pub length-be_bytes : (k n : ℕ) → length (be_bytes k n) ≡ k
length-be_bytes zero n = refl
length-be_bytes (suc k) n = ap suc (length-be_bytes k n)

pub be_value-be_bytes_16 : (n : ℕ) → be_value (be_bytes 2 n) ≡ n % 0x10000
be_value-be_bytes_16 n = omega arith

pub be_value-be_bytes_32 : (n : ℕ) → be_value (be_bytes 4 n) ≡ n % 0x100000000
be_value-be_bytes_32 n = omega arith

-- What was read stood in front of the rest.
pub read_full-eq_ok :
    (n : ℕ) (stream : Bytes) {front rest : Bytes}
    → read_full n stream ≡ ok (front, rest)
    → (n ≤ length stream) × (front ≡ take n stream) × (rest ≡ drop n stream)
unfolding read_full
read_full-eq_ok n stream h = elim (Bool-cases (leb n (length stream))) [
  | inl enough ↦
      let parts = ok_pair (rw enough at h) in
      (leb→le n (length stream) enough, sym parts.0, sym parts.1)
  | inr short ↦ absurd (ground arith)
]

pub read_full-enough :
    (n : ℕ) (stream : Bytes)
    → n ≤ length stream
    → read_full n stream ≡ ok (take n stream, drop n stream)
unfolding read_full
read_full-enough n stream h = rw (le→leb n (length stream) h) refl

-- A read of as many bytes as stand in front takes them.
pub read_full-append :
    (n : ℕ) (front rest : Bytes) → length front ≡ n → read_full n (front ++ rest) ≡ ok (front, rest)
read_full-append n front rest e = rw (sym e) (
    rw (take-append front rest, drop-append front rest) at
      (read_full-enough (length front) (front ++ rest) (omega (arith, length-append front rest))))

pub copy_at-whole : (src b : Bytes) → length src ≡ length b → copy_at 0 src b ≡ src
copy_at-whole [] [] h = refl
copy_at-whole [] (x ∷ b) h = absurd (omega arith)
copy_at-whole (y ∷ src) [] h = absurd (omega arith)
copy_at-whole (y ∷ src) (x ∷ b) h = ap (◌∷◌ y) (copy_at-whole src b (omega arith))
