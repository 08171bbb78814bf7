-- ===== src/Acrablock/Malformed.antt =====
-- Blocks that no `CreateAcraBlock` made: where `ExtractAcraBlockFromData` and `Decrypt` panic.
use acra.Base.{
  ℕ, ◌+◌, ◌<◌, ◌≤◌, ◌≡◌, sym, ap, ◌∙◌, true, List, inl, inr, Bytes, length, take, bytes_eq,
  bytes_eq_refl, arith, leb, Bool-cases, get_or, leb→le, length-take,
}
use acra.Base.Words.{is_negative}
use acra.Base.Outcome.{ok_pair, Outcome, ok, panic}
use acra.Crypto.{Error, Cell}
use acra.Acrablock.{
  extract_acra_block, decrypt, encrypted_key_length, tag_begin, claimed_length, valid_mask,
}

-- From 2^63 on, the claimed length of a block with a right tag and known backends passes every test,
-- and the slice of the data panics, whatever its length.
pub extract-panic :
    (b : Bytes)
    → 18 ≤ length b
    → length b < 0x8000000000000000
    → take 4 b ≡ tag_begin
    → get_or b 12 0 ≡ 0
    → get_or b 15 0 ≡ 0
    → 0x8000000000000000 ≤ claimed_length b
    → extract_acra_block b ≡ panic
unfolding extract_acra_block
extract-panic b long small tag kek dek claim =
    let tagged : bytes_eq (take 4 b) tag_begin ≡ true = rw tag (bytes_eq_refl tag_begin) in
    let big : is_negative (claimed_length b) ≡ true = ground arith in
    let mask : valid_mask b ≡ 16 = ground arith in ground arith

extracted :
    (b block : Bytes) (n : ℕ)
    → extract_acra_block b ≡ ok (n, block)
    → (claimed_length b ≤ length b) × (claimed_length b ≡ n) × (take (claimed_length b) b ≡ block)
unfolding extract_acra_block
extracted b block n h = elim (Bool-cases (leb (claimed_length b) (length b))) [
  | inl fits ↦
      let same : ◌≡◌ {A = Outcome Error (ℕ × Bytes)}
          (ok (claimed_length b, take (claimed_length b) b)) (ok (n, block)) =
        ground arith in
      let (claim, prefix) = ok_pair same in
      (leb→le (claimed_length b) (length b) fits, claim, prefix)
  | inr over ↦ absurd (ground arith)
]

-- `ExtractAcraBlockFromData` gives a prefix of the data, of the length that it returns.
pub extract-prefix :
    (b block : Bytes) (n : ℕ)
    → extract_acra_block b ≡ ok (n, block)
    → (n ≤ length b) × (take n b ≡ block) × (length block ≡ n)
extract-prefix b block n h =
    let (fits, claim, is_prefix) = extracted b block n h in
    let prefix : take n b ≡ block = rw claim at is_prefix in
    let bound : n ≤ length b = omega arith in
    (bound, prefix, sym (ap length prefix) ∙ length-take n b bound)

-- `Decrypt` checks no length: it panics on every block that is shorter than its header, or than the
-- header and the encrypted key whose length the header claims.
pub decrypt-short :
    (c : Cell) (b context : Bytes) (keys : List Bytes)
    → length b < 18 + encrypted_key_length b
    → decrypt c b keys context ≡ panic
unfolding decrypt
decrypt-short c b context keys short = ground arith
