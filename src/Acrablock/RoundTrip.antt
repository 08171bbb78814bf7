-- ===== src/Acrablock/RoundTrip.antt =====
-- A block that `CreateAcraBlock` made is found by `ExtractAcraBlockFromData` and opened by `Decrypt`.
use acra.Base.{
  replicate, ℕ, ◌+◌, ◌<◌, ◌≤◌, ◌≡◌, refl, sym, ap, ◌∙◌, true, false, some, List, [], ◌∷◌, ◌++◌,
  ◌==◌, ◌⊎◌, inl, inr, Bytes, length, take, bytes_eq, bytes_eq_refl, length-take, length-append,
  take-append, arith, le→leb, leb, get_or,
}
use acra.Base.Words.{le_value-le_bytes}
use acra.Base.Outcome.{ok_injective, Outcome, ok, err, >>=-eq_ok, guard}
use acra.Crypto.{Error, Cell, data_encryption_key_generation}
use acra.Acrablock.{
  create_acra_block, key_id, extract_acra_block, decrypt, find_data_key,
  set_key_encryption_key_type, set_key_encryption_key_id, set_data_encryption_type, build,
  new_empty_acra_block, tag_begin, claimed_length, valid_mask,
}
use acra.Acrablock.Layout.{
  layout, blank, build-layout, new_empty_acra_block-blank, length-layout,
  encrypted_key_length-layout, drop-layout,
}

two_bytes : (xs : Bytes) → length xs ≡ 2 → (a : ℕ) × (b : ℕ) × (xs ≡ a ∷ b ∷ [])
two_bytes [] h = absurd (omega arith)
two_bytes (a ∷ []) h = absurd (omega arith)
two_bytes (a ∷ b ∷ []) h = (a, b, refl)
two_bytes (a ∷ b ∷ d ∷ xs) h = absurd (omega arith)

-- What a block that was created is made of.
record Made (c : Cell) (plain key context block : Bytes) : Type 0 where
  data_key : Bytes
  seed1 : ℕ
  seed2 : ℕ
  encrypted_key : Bytes
  encrypted_data : Bytes
  id0 : ℕ
  id1 : ℕ
  sealed_data : c.seal seed1 data_key plain context ≡ ok encrypted_data
  sealed_key : c.seal seed2 key data_key context ≡ ok encrypted_key
  named : key_id c key context ≡ id0 ∷ id1 ∷ []
  short : length encrypted_key < 65536
  is_layout : block ≡ layout 0 id0 id1 0 encrypted_key encrypted_data

module _ (c : Cell) (seed1 seed2 : ℕ) (plain key context : Bytes) where
  set_fields :
      (n m i0 i1 : ℕ)
      → key_id c key context ≡ i0 ∷ i1 ∷ []
      → set_data_encryption_type 0 (
          set_key_encryption_key_id c key context
            (set_key_encryption_key_type 0 (new_empty_acra_block (18 + n + m))))
        ≡ blank 0 i0 i1 0 (replicate (m + n) 0)
  unfolding set_data_encryption_type set_key_encryption_key_id set_key_encryption_key_type
  set_fields n m i0 i1 e = rw (new_empty_acra_block-blank n m) (rw e refl)

  block_is :
      (i0 i1 : ℕ) (ek ed block : Bytes)
      → key_id c key context ≡ i0 ∷ i1 ∷ []
      → length ek < 65536
      → build ek ed (
          set_data_encryption_type 0 (
            set_key_encryption_key_id c key context
              (set_key_encryption_key_type 0 (new_empty_acra_block (18 + length ed + length ek)))))
        ≡ ok block
      → block ≡ layout 0 i0 i1 0 ek ed
  block_is i0 i1 ek ed block named short h = ok_injective (
      sym (rw (set_fields (length ed) (length ek) i0 i1 named) at h)
      ∙ build-layout 0 i0 i1 0 ek ed short)

  create-Made :
      (random : Outcome Error Bytes) (block : Bytes)
      → create_acra_block c random seed1 seed2 plain key context ≡ ok block
      → Made c plain key context block
  unfolding create_acra_block
  create-Made random block h =
      let (data_key, e0, h0) = >>=-eq_ok random _ h in
      let (unit, e1, h1) =
        >>=-eq_ok (guard (length data_key == 32) data_encryption_key_generation) _ h0 in
      let (ed, e2, h2) = >>=-eq_ok (c.seal seed1 data_key plain context) _ h1 in
      let (ek, e3, h3) = >>=-eq_ok (c.seal seed2 key data_key context) _ h2 in
      let (i0, i1, named) = two_bytes (key_id c key context) (
        length-take 2 (c.sha256 (key ++ context))
          (omega (arith, c.length-sha256 (key ++ context)))) in
      let size : length data_key ≡ 32 = ground arith in
      let short : length ek < 65536 =
        omega (arith, c.length-seal seed2 key data_key context ek e3) in
      record {
        data_key = data_key;
        seed1 = seed1;
        seed2 = seed2;
        encrypted_key = ek;
        encrypted_data = ed;
        id0 = i0;
        id1 = i1;
        sealed_data = e2;
        sealed_key = e3;
        named = named;
        short = short;
        is_layout = block_is i0 i1 ek ed block named short h3;
      }

-- Another key that `Decrypt` passes over: it has another ID, or it opens nothing that `key` sealed.
abbrev pub IsPassed : Cell → Bytes → Bytes → Bytes → Type 0
IsPassed c key context other =
    (bytes_eq (key_id c other context) (key_id c key context) ≡ false)
    ⊎ ((seed : ℕ) (plain sealed : Bytes)
        → c.seal seed key plain context ≡ ok sealed
        → (e : Error) × (c.unseal other sealed context ≡ err e))

abbrev pub AllPassed : Cell → Bytes → Bytes → List Bytes → Type 0
AllPassed c key context [] = Unit
AllPassed c key context (other ∷ others) =
    IsPassed c key context other × AllPassed c key context others

find_data_key-found :
    (c : Cell) (seed : ℕ) (key context data_key sealed : Bytes) (before after : List Bytes)
    → AllPassed c key context before
    → c.seal seed key data_key context ≡ ok sealed
    → find_data_key c 0 (key_id c key context) sealed context (before ++ key ∷ after)
      ≡ ok (some data_key)
unfolding find_data_key
find_data_key-found c seed key context data_key sealed [] after passed h =
    ground (
      arith,
      bytes_eq_refl (key_id c key context),
      c.unseal-seal seed key data_key context sealed h,
    )
find_data_key-found c seed key context data_key sealed (k ∷ before) after (inl other, rest) h =
    ground (arith, find_data_key-found c seed key context data_key sealed before after rest h)
find_data_key-found c seed key context data_key sealed (k ∷ before) after (inr fails, rest) h =
    let (e, failed) = fails seed data_key sealed h in
    ground (arith, find_data_key-found c seed key context data_key sealed before after rest h)

-- `Decrypt` of a laid out block, once its data key is found
decrypt-layout :
    (c : Cell) (i0 i1 : ℕ) (ek ed plain data_key context : Bytes) (keys : List Bytes)
    → length ek < 65536
    → find_data_key c 0 (i0 ∷ i1 ∷ []) ek context keys ≡ ok (some data_key)
    → c.unseal data_key ed context ≡ ok plain
    → decrypt c (layout 0 i0 i1 0 ek ed) keys context ≡ ok plain
unfolding decrypt
decrypt-layout c i0 i1 ek ed plain data_key context keys short found opened = ground (
  arith,
  length-layout 0 i0 i1 0 ek ed,
  encrypted_key_length-layout 0 i0 i1 0 ek ed short,
  drop-layout 0 i0 i1 0 ek ed,
  take-append ek ed,
)

-- The four tests of `ExtractAcraBlockFromData` passed.
pub extract-valid :
    (b : Bytes) (n : ℕ)
    → 18 ≤ length b
    → take 4 b ≡ tag_begin
    → get_or b 12 0 ≡ 0
    → get_or b 15 0 ≡ 0
    → claimed_length b ≡ n
    → n ≤ length b
    → extract_acra_block b ≡ ok (n, take n b)
unfolding extract_acra_block
extract-valid b n long tag kek dek claim fits =
    let tagged : bytes_eq (take 4 b) tag_begin ≡ true = rw tag (bytes_eq_refl tag_begin) in
    let fit : leb (claimed_length b) (length b) ≡ true = rw claim (le→leb n (length b) fits) in
    let mask : valid_mask b ≡ 16 = ground arith in ground arith

extract-layout :
    (i0 i1 : ℕ) (ek ed rest : Bytes)
    → length (layout 0 i0 i1 0 ek ed ++ rest) < 0x8000000000000000
    → extract_acra_block (layout 0 i0 i1 0 ek ed ++ rest)
      ≡ ok (length (layout 0 i0 i1 0 ek ed), layout 0 i0 i1 0 ek ed)
extract-layout i0 i1 ek ed rest bound =
    let b : Bytes = layout 0 i0 i1 0 ek ed in
    let total = length-append b rest in
    let size = length-layout 0 i0 i1 0 ek ed in
    let claim : claimed_length (b ++ rest) ≡ length b =
      omega (arith, le_value-le_bytes 8 (14 + (length ek + length ed)) (omega arith)) in
    extract-valid (b ++ rest) (length b) (omega arith) refl refl refl claim (omega arith)
    ∙ ap (λ (x : Bytes). ok (length b, x)) (take-append b rest)

module _ (c : Cell) (seed1 seed2 : ℕ) (random : Outcome Error Bytes)
    (plain key context : Bytes) where
  -- `Decrypt` opens a created block with any list of keys that holds the key, where it passes over
  -- the keys in front.
  pub decrypt-create :
      (block : Bytes) (before after : List Bytes)
      → create_acra_block c random seed1 seed2 plain key context ≡ ok block
      → AllPassed c key context before
      → decrypt c block (before ++ key ∷ after) context ≡ ok plain
  unfolding decrypt
  decrypt-create block before after h passed =
      let m = create-Made c seed1 seed2 plain key context random block h in
      rw m.is_layout (
        decrypt-layout c m.id0 m.id1 m.encrypted_key m.encrypted_data plain m.data_key context
          (before ++ key ∷ after) m.short
          (rw m.named at (
            find_data_key-found c m.seed2 key context m.data_key m.encrypted_key before after passed
              m.sealed_key))
          (c.unseal-seal m.seed1 m.data_key plain context m.encrypted_data m.sealed_data))

  -- A created block is found at the start of any data shorter than 2^63, and at its whole length.
  pub extract-create :
      (block rest : Bytes)
      → create_acra_block c random seed1 seed2 plain key context ≡ ok block
      → length (block ++ rest) < 0x8000000000000000
      → extract_acra_block (block ++ rest) ≡ ok (length block, block)
  unfolding extract_acra_block
  extract-create block rest h bound =
      let m = create-Made c seed1 seed2 plain key context random block h in
      rw m.is_layout
        (extract-layout m.id0 m.id1 m.encrypted_key m.encrypted_data rest (rw m.is_layout at bound))
