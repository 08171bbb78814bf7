-- ===== src/Acrablock/Layout.antt =====
-- The bytes of a block that `Build` makes.
use acra.Base.{
  replicate, copy_at, ℕ, zero, suc, ◌+◌, ◌-◌, ◌<◌, ◌≡◌, refl, ap, ◌∙◌, false, [], ◌∷◌, ◌++◌, Bytes,
  ltb, length, take, drop, length-append, drop-append, arith, le→ltb,
}
use acra.Base.Words.{le_bytes}
use acra.Base.Outcome.{ok}
use acra.Acrablock.{
  new_empty_acra_block, encrypted_key_length, set_encrypted_key, set_encrypted_data, build,
}

-- tag, length of the rest, type and ID of the key encryption key, type of the data encryption, and
-- the length of the encrypted key
abbrev pub header : Bytes → ℕ → ℕ → ℕ → ℕ → Bytes → Bytes → Bytes
header (n0 ∷ n1 ∷ n2 ∷ n3 ∷ n4 ∷ n5 ∷ n6 ∷ n7 ∷ _) t i0 i1 u (l0 ∷ l1 ∷ _) rest =
    b'"' ∷ b'"' ∷ b'"' ∷ b'"' ∷ n0 ∷ n1 ∷ n2 ∷ n3 ∷ n4 ∷ n5 ∷ n6 ∷ n7 ∷ t ∷ i0 ∷ i1 ∷ u ∷ l0 ∷ l1
    ∷ rest
header n t i0 i1 u l rest = rest

abbrev pub layout : ℕ → ℕ → ℕ → ℕ → Bytes → Bytes → Bytes
layout t i0 i1 u ek ed =
    header (le_bytes 8 (14 + (length ek + length ed))) t i0 i1 u (le_bytes 2 (length ek)) (ek ++ ed)

length-replicate : (n : ℕ) → length (replicate n 0) ≡ n
length-replicate zero = refl
length-replicate (suc n) = ap suc (length-replicate n)

copy_at-replicate :
    (xs : Bytes) (m : ℕ) → copy_at 0 xs (replicate (length xs + m) 0) ≡ xs ++ replicate m 0
copy_at-replicate [] m = let e : 0 + m ≡ m = omega arith in rw e refl
copy_at-replicate (x ∷ xs) m =
    let e : suc (length xs) + m ≡ suc (length xs + m) = omega arith in
    rw e (ap (◌∷◌ x) (copy_at-replicate xs m))

copy_at-append : (xs ys zs : Bytes) → copy_at (length xs) ys (xs ++ zs) ≡ xs ++ copy_at 0 ys zs
copy_at-append [] ys zs = refl
copy_at-append (x ∷ xs) ys zs = ap (◌∷◌ x) (copy_at-append xs ys zs)

copy_at-whole : (ys : Bytes) → copy_at 0 ys (replicate (length ys) 0) ≡ ys
copy_at-whole [] = refl
copy_at-whole (y ∷ ys) = ap (◌∷◌ y) (copy_at-whole ys)

-- the buffer before `Build`
abbrev pub blank : ℕ → ℕ → ℕ → ℕ → Bytes → Bytes
blank t i0 i1 u rest = header (0 ∷ 0 ∷ 0 ∷ 0 ∷ 0 ∷ 0 ∷ 0 ∷ 0 ∷ []) t i0 i1 u (0 ∷ 0 ∷ []) rest

pub new_empty_acra_block-blank :
    (n m : ℕ) → new_empty_acra_block (18 + n + m) ≡ blank 0 0 0 0 (replicate (m + n) 0)
unfolding new_empty_acra_block
new_empty_acra_block-blank n m =
    let e : 18 + n + m
        ≡ suc (
            suc (
              suc (
                suc (
                  suc (
                    suc (
                      suc (
                        suc (
                          suc
                            (suc (suc (suc (suc (suc (suc (suc (suc (suc (m + n)))))))))))))))))) =
      omega arith in
    rw e refl

-- the buffer with its encrypted key
abbrev keyed : ℕ → ℕ → ℕ → ℕ → ℕ → Bytes → Bytes
keyed t i0 i1 u n rest =
    header (0 ∷ 0 ∷ 0 ∷ 0 ∷ 0 ∷ 0 ∷ 0 ∷ 0 ∷ []) t i0 i1 u (take 2 (le_bytes 4 n)) rest

set_encrypted_key-blank :
    (t i0 i1 u : ℕ) (ek ed : Bytes)
    → set_encrypted_key ek (blank t i0 i1 u (replicate (length ek + length ed) 0))
      ≡ ok (keyed t i0 i1 u (length ek) (ek ++ replicate (length ed) 0))
unfolding set_encrypted_key
set_encrypted_key-blank t i0 i1 u ek ed =
    let b : Bytes = blank t i0 i1 u (replicate (length ek + length ed) 0) in
    let fits : ltb (length b) (18 + length ek) ≡ false =
      le→ltb (length b) (18 + length ek)
        (omega (arith, length-replicate (length ek + length ed))) in
    let e : copy_at 18 ek (copy_at 16 (take 2 (le_bytes 4 (length ek))) b)
        ≡ keyed t i0 i1 u (length ek) (ek ++ replicate (length ed) 0) =
      ap (λ rest. keyed t i0 i1 u (length ek) rest) (copy_at-replicate ek (length ed)) in
    rw (fits, set_encrypted_key) (ap ok e)

encrypted_key_length-keyed :
    (t i0 i1 u n : ℕ) (rest : Bytes) → n < 65536 → encrypted_key_length (keyed t i0 i1 u n rest) ≡ n
unfolding encrypted_key_length
encrypted_key_length-keyed t i0 i1 u n rest h = omega arith

copy_at-keyed :
    (t i0 i1 u n : ℕ) (ek ed : Bytes)
    → copy_at (18 + length ek) ed (keyed t i0 i1 u n (ek ++ replicate (length ed) 0))
      ≡ keyed t i0 i1 u n (ek ++ ed)
copy_at-keyed t i0 i1 u n ek ed =
    let e : 18 + length ek
        ≡ suc (
            suc (
              suc (
                suc (
                  suc (
                    suc (
                      suc (
                        suc (
                          suc (
                            suc
                              (suc (suc (suc (suc (suc (suc (suc (suc (length ek)))))))))))))))))) =
      omega arith in
    rw e (
      ap (λ b. keyed t i0 i1 u n b)
        (copy_at-append ek ed (replicate (length ed) 0) ∙ ap (λ b. ek ++ b) (copy_at-whole ed)))

set_encrypted_data-keyed :
    (t i0 i1 u : ℕ) (ek ed : Bytes)
    → length ek < 65536
    → set_encrypted_data ed (keyed t i0 i1 u (length ek) (ek ++ replicate (length ed) 0))
      ≡ ok (keyed t i0 i1 u (length ek) (ek ++ ed))
unfolding set_encrypted_data
set_encrypted_data-keyed t i0 i1 u ek ed h = ground (
  arith,
  encrypted_key_length-keyed t i0 i1 u (length ek) (ek ++ replicate (length ed) 0) h,
  copy_at-keyed t i0 i1 u (length ek) ek ed,
  length-append ek (replicate (length ed) 0),
  length-replicate (length ed),
)

pub build-layout :
    (t i0 i1 u : ℕ) (ek ed : Bytes)
    → length ek < 65536
    → build ek ed (blank t i0 i1 u (replicate (length ek + length ed) 0))
      ≡ ok (layout t i0 i1 u ek ed)
unfolding build
build-layout t i0 i1 u ek ed h =
    rw (set_encrypted_key-blank t i0 i1 u ek ed, build)
      (rw (set_encrypted_data-keyed t i0 i1 u ek ed h, build)
        (let e : suc (
                  suc (
                    suc (
                      suc (
                        suc (
                          suc (
                            suc (
                              suc (
                                suc (
                                  suc (
                                    suc (
                                      suc (
                                        suc (
                                          suc
                                            (suc (suc (suc (suc (length (ek ++ ed)))))))))))))))))))
                - 4
              ≡ 14 + (length ek + length ed) =
            omega (arith, length-append ek ed) in
          rw e refl))

-- The fields of a laid out block are read back.
module _ (t i0 i1 u : ℕ) (ek ed : Bytes) where
  pub length-layout : length (layout t i0 i1 u ek ed) ≡ 18 + (length ek + length ed)
  length-layout = omega (arith, length-append ek ed)

  pub encrypted_key_length-layout :
      length ek < 65536 → encrypted_key_length (layout t i0 i1 u ek ed) ≡ length ek
  unfolding encrypted_key_length
  encrypted_key_length-layout h = omega arith

  pub drop-layout : drop (18 + length ek) (layout t i0 i1 u ek ed) ≡ ed
  drop-layout =
      let e : 18 + length ek
          ≡ suc (
              suc (
                suc (
                  suc (
                    suc (
                      suc (
                        suc (
                          suc (
                            suc (
                              suc (
                                suc
                                  (suc (suc (suc (suc (suc (suc (suc (length ek)))))))))))))))))) =
        omega arith in
      rw e (drop-append ek ed)
