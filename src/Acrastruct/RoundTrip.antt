-- ===== src/Acrastruct/RoundTrip.antt =====
-- A struct that `CreateAcrastruct` made is found by `ExtractAcraStruct` and opened by
-- `DecryptRotatedAcrastruct`.
use acra.Base.{
  ℕ, ◌+◌, ◌-◌, ◌<◌, ◌≤◌, ◌≡◌, refl, sym, ap, ◌∙◌, true, List, [], ◌∷◌, ◌++◌, ◌==◌, Bytes, length,
  take, drop, bytes_eq, bytes_eq_refl, arith, length-append, take-append, drop-append, drop-add,
  append_assoc,
}
use acra.Base.Words.{le_bytes, le_value, le_value-le_bytes, length-le_bytes}
use acra.Base.Outcome.{Outcome, ok, err, >>=-eq_ok, guard, ok_injective}
use acra.Crypto.{Error, Cell, Messenger, short_random}
use acra.Acrastruct.{
  stored_length, validate, extract_acra_struct, total_length, tag_begin, decrypt_acra_struct,
  decrypt_each, decrypt_rotated, create_acra_struct,
}

abbrev layout : Bytes → Bytes → ℕ → Bytes → Bytes
layout public_key encrypted_key n rest =
    tag_begin ++ (public_key ++ (encrypted_key ++ (le_bytes 8 n ++ rest)))

take-front : (p rest : Bytes) (n : ℕ) → length p ≡ n → take n (p ++ rest) ≡ p
take-front p rest n e = ap (λ (k : ℕ). take k (p ++ rest)) (sym e) ∙ take-append p rest

drop-front : (p rest : Bytes) (n : ℕ) → length p ≡ n → drop n (p ++ rest) ≡ rest
drop-front p rest n e = ap (λ (k : ℕ). drop k (p ++ rest)) (sym e) ∙ drop-append p rest

validate-is :
    (b : Bytes)
    → 145 ≤ length b
    → bytes_eq (take 8 b) tag_begin ≡ true
    → stored_length b ≡ length b - 145
    → validate b ≡ ok tt
unfolding validate
validate-is b long tagged stored = ground arith

extract_acra_struct-is :
    (b : Bytes) (n : ℕ)
    → stored_length b ≡ n
    → 145 + n ≤ length b
    → length b < 0x8000000000000000
    → validate (take (145 + n) b) ≡ ok tt
    → extract_acra_struct b ≡ ok (145 + n, take (145 + n) b)
unfolding extract_acra_struct
extract_acra_struct-is b n stored fits small valid =
    let total : total_length (stored_length b) ≡ 145 + n = omega arith in ground arith

module _ (p k : Bytes) (size_p : length p ≡ 45) (size_k : length k ≡ 84) where
  module _ (n : ℕ) (d : Bytes) where
    length-layout : length (layout p k n d) ≡ 145 + length d
    length-layout = omega (
      arith,
      length-append p (k ++ (le_bytes 8 n ++ d)),
      length-append k (le_bytes 8 n ++ d),
      length-append (le_bytes 8 n) d,
      length-le_bytes 8 n,
    )

    drop-public : drop 53 (layout p k n d) ≡ k ++ (le_bytes 8 n ++ d)
    drop-public = drop-front p _ 45 size_p

    drop-key : drop 137 (layout p k n d) ≡ le_bytes 8 n ++ d
    drop-key =
        drop-add 53 84 (layout p k n d) ∙ (ap (drop 84) drop-public ∙ drop-front k _ 84 size_k)

    drop-length : drop 145 (layout p k n d) ≡ d
    drop-length = drop-add 137 8 (layout p k n d) ∙ ap (drop 8) drop-key

    stored_length-layout : n < 0x8000000000000000 → stored_length (layout p k n d) ≡ n
    unfolding stored_length
    stored_length-layout h =
        ap (λ (b : Bytes). le_value (take 8 b)) drop-key ∙ le_value-le_bytes 8 n (omega arith)

  module _ (d : Bytes) where
    validate-layout : length d < 0x8000000000000000 → validate (layout p k (length d) d) ≡ ok tt
    validate-layout h =
        let size = length-layout (length d) d in
        let stored = stored_length-layout (length d) d h in
        validate-is (layout p k (length d) d) (omega arith) (bytes_eq_refl tag_begin) (omega arith)

    layout-append :
        (rest : Bytes) → layout p k (length d) d ++ rest ≡ layout p k (length d) (d ++ rest)
    layout-append rest =
        ap (λ (b : Bytes). tag_begin ++ b)
          (append_assoc p (k ++ (le_bytes 8 (length d) ++ d)) rest
            ∙ ap (λ (b : Bytes). p ++ b) (append_assoc k (le_bytes 8 (length d) ++ d) rest))

    extract_acra_struct-layout :
        (rest : Bytes)
        → length (layout p k (length d) d ++ rest) < 0x8000000000000000
        → extract_acra_struct (layout p k (length d) d ++ rest)
          ≡ ok (145 + length d, layout p k (length d) d)
    extract_acra_struct-layout rest h =
        let l : Bytes = layout p k (length d) d in
        let size = length-layout (length d) d in
        let total = length-append l rest in
        let front : take (145 + length d) (l ++ rest) ≡ l =
          take-front l rest (145 + length d) size in
        let small : length d < 0x8000000000000000 = omega arith in
        let stored : stored_length (l ++ rest) ≡ length d =
          ap stored_length (layout-append rest)
          ∙ stored_length-layout (length d) (d ++ rest) small in
        extract_acra_struct-is (l ++ rest) (length d) stored (omega arith) h
          (ap validate front ∙ validate-layout small)
        ∙ ap (λ (x : Bytes). ok (145 + length d, x)) front

    decrypt_acra_struct-layout :
        (c : Cell) (m : Messenger) (private_key context data_key plain : Bytes)
        → length d < 0x8000000000000000
        → m.unwrap private_key p k ≡ ok data_key
        → c.unseal data_key d context ≡ ok plain
        → decrypt_acra_struct c m (layout p k (length d) d) private_key context ≡ ok plain
    unfolding decrypt_acra_struct
    decrypt_acra_struct-layout c m private_key context data_key plain h unwrapped opened =
        rw (validate-layout h) (
          rw (take-front p (k ++ (le_bytes 8 (length d) ++ d)) 45 size_p) (
            rw (drop-public (length d) d) (
              rw (take-front k (le_bytes 8 (length d) ++ d) 84 size_k, unwrapped)
                (rw (drop-length (length d) d) opened))))

-- What a struct that was created is made of.
record Made (c : Cell) (m : Messenger) (mine my_public acra_public plain context block : Bytes)
    : Type 0 where
  data_key : Bytes
  seed1 : ℕ
  seed2 : ℕ
  encrypted_key : Bytes
  encrypted_data : Bytes
  wrapped : m.wrap seed1 mine acra_public data_key ≡ ok encrypted_key
  sealed_data : c.seal seed2 data_key plain context ≡ ok encrypted_data
  size_public : length my_public ≡ 45
  size_key : length encrypted_key ≡ 84
  is_layout : block ≡ layout my_public encrypted_key (length encrypted_data) encrypted_data

-- `DecryptAcrastruct` fails with each of the keys.
abbrev pub AllFail : Cell → Messenger → Bytes → Bytes → List Bytes → Type 0
AllFail c m block context [] = Unit
AllFail c m block context (k ∷ ks) =
    ((e : Error) × (decrypt_acra_struct c m block k context ≡ err e)) × AllFail c m block context ks

decrypt_each-found :
    (c : Cell) (m : Messenger) (e : Error) (block private_key context plain : Bytes)
    (before after : List Bytes)
    → AllFail c m block context before
    → decrypt_acra_struct c m block private_key context ≡ ok plain
    → decrypt_each c m e block (before ++ private_key ∷ after) context ≡ ok plain
unfolding decrypt_each
decrypt_each-found c m e block private_key context plain [] after fails h =
    rw (h, decrypt_each) refl
decrypt_each-found c m e block private_key context plain (k ∷ before) after ((e', failed), fails)
      h =
    rw (failed, decrypt_each)
      (decrypt_each-found c m e' block private_key context plain before after fails h)

module _ (c : Cell) (m : Messenger) (seed1 seed2 : ℕ) (random : Outcome Error Bytes)
    (mine my_public acra_public plain context : Bytes) (my_pair : m.IsPair mine my_public)
    (small : length plain < 0x4000000000000000) where
  create_acra_struct-Made :
      (block : Bytes)
      → create_acra_struct c m (ok (mine, my_public)) random seed1 seed2 plain acra_public context
        ≡ ok block
      → Made c m mine my_public acra_public plain context block
  unfolding create_acra_struct
  create_acra_struct-Made block h =
      let (data_key, e1, h1) = >>=-eq_ok random _ h in
      let (unit, e2, h2) = >>=-eq_ok (guard (length data_key == 32) short_random) _ h1 in
      let (ek, e3, h3) = >>=-eq_ok (m.wrap seed1 mine acra_public data_key) _ h2 in
      let (ed, e4, h4) = >>=-eq_ok (c.seal seed2 data_key plain context) _ h3 in
      let size : length data_key ≡ 32 = ground arith in
      record {
        data_key = data_key;
        seed1 = seed1;
        seed2 = seed2;
        encrypted_key = ek;
        encrypted_data = ed;
        wrapped = e3;
        sealed_data = e4;
        size_public = m.length-public mine my_public my_pair;
        size_key = m.length-wrap seed1 mine acra_public data_key ek size e3;
        is_layout = sym (ok_injective h4);
      }

  -- An AcraStruct created from less than 2^62 bytes, followed by any data up to 2^63 bytes in all, is
  -- found at its whole length.
  pub extract_acra_struct-create_acra_struct :
      (block rest : Bytes)
      → create_acra_struct c m (ok (mine, my_public)) random seed1 seed2 plain acra_public context
        ≡ ok block
      → length (block ++ rest) < 0x8000000000000000
      → extract_acra_struct (block ++ rest) ≡ ok (length block, block)
  extract_acra_struct-create_acra_struct block rest h bound =
      let a = create_acra_struct-Made block h in
      rw a.is_layout (
        extract_acra_struct-layout my_public a.encrypted_key a.size_public a.size_key
          a.encrypted_data rest (rw a.is_layout at bound)
        ∙ ap
            (λ (n : ℕ).
              ok (n, layout my_public a.encrypted_key (length a.encrypted_data) a.encrypted_data))
            (sym (
              length-layout my_public a.encrypted_key a.size_public a.size_key
                (length a.encrypted_data) a.encrypted_data)))

  -- `DecryptRotatedAcrastruct` opens an AcraStruct created from less than 2^62 bytes with any list of
  -- keys that holds the
  -- private key of the recipient, where it fails with the keys in front.
  pub decrypt_rotated-create_acra_struct :
      (block private_key : Bytes) (before after : List Bytes)
      → m.IsPair private_key acra_public
      → create_acra_struct c m (ok (mine, my_public)) random seed1 seed2 plain acra_public context
        ≡ ok block
      → AllFail c m block context before
      → decrypt_rotated c m block (before ++ private_key ∷ after) context ≡ ok plain
  decrypt_rotated-create_acra_struct block private_key before after pair h fails =
      let a = create_acra_struct-Made block h in
      let bound = c.length-seal a.seed2 a.data_key plain context a.encrypted_data a.sealed_data in
      decrypt_each-found c m _ block private_key context plain before after fails (
        rw a.is_layout (
          decrypt_acra_struct-layout my_public a.encrypted_key a.size_public a.size_key
            a.encrypted_data c m private_key context a.data_key plain (omega arith)
            (m.unwrap-wrap a.seed1 mine my_public private_key acra_public a.data_key a.encrypted_key
              my_pair pair a.wrapped)
            (c.unseal-seal a.seed2 a.data_key plain context a.encrypted_data a.sealed_data)))
