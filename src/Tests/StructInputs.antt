-- ===== src/Tests/StructInputs.antt =====
-- AcraStructs at concrete inputs: a messenger whose pairs are equal up to the length of the public
-- key, and which wraps by padding.
use acra.Base.{
  ◌⊎◌, replicate, ℕ, ◌≡◌, ◌≤◌, ◌++◌, refl, sym, ap, ◌∙◌, [], ◌∷◌, Bytes, length, take, take-append,
  length-append, bytes_eq, text, arith, ◌==◌, if◌then◌else◌,
}
use acra.Base.Outcome.{Outcome, ok, err}
use acra.Crypto.{Error, Messenger, external}
use acra.Acrastruct.{
  extract_acra_struct, decrypt_acra_struct, decrypt_rotated, create_acra_struct, stored_length,
  validate,
}
use acra.Acrastruct.Safe.{extract_acra_struct-total}
use acra.Acrastruct.RoundTrip.{decrypt_rotated-create_acra_struct}
use acra.Tests.Instances.{length_cell, length-replicate}

-- The wrapped form: the message, then zeros; the private key must be one byte.
abbrev unwrap_padded : Bytes → Bytes → Outcome Error Bytes
unwrap_padded (x ∷ []) sealed = ok (take 32 sealed)
unwrap_padded _ sealed = err (external 1)

abbrev wrap_padded : Bytes → Outcome Error Bytes
wrap_padded message =
    if length message == 32 then ok (message ++ replicate 52 0) else err (external 2)

abbrev IsOne : Bytes → Bytes → Type 0
IsOne private_key public_key = (private_key ≡ 1 ∷ []) × (public_key ≡ replicate 45 2)

wrapped_is :
    (message sealed : Bytes)
    → wrap_padded message ≡ ok sealed
    → (length message ≡ 32) × (message ++ replicate 52 0 ≡ sealed)
wrapped_is message sealed h = (ground arith, ground arith)

unwrap_padded-wrap_padded :
    (private_key message sealed : Bytes)
    → private_key ≡ 1 ∷ []
    → wrap_padded message ≡ ok sealed
    → unwrap_padded private_key sealed ≡ ok message
unwrap_padded-wrap_padded private_key message sealed e h =
    let (size, is_padded) = wrapped_is message sealed h in
    let front : take 32 (message ++ replicate 52 0) ≡ message =
      ap (λ (n : ℕ). take n (message ++ replicate 52 0)) (sym size)
      ∙ take-append message (replicate 52 0) in
    rw e (ap (λ (b : Bytes). ok (take 32 b)) (sym is_padded) ∙ ap ok front)

length-wrap_padded : (message sealed : Bytes) → wrap_padded message ≡ ok sealed → length sealed ≡ 84
length-wrap_padded message sealed h =
    let (size, is_padded) = wrapped_is message sealed h in
    omega (
      arith,
      ap (length {A = ℕ}) is_padded,
      length-append message (replicate 52 0),
      length-replicate 52 0,
    )

abbrev padding : Messenger
padding = record {
  IsPair = IsOne;
  wrap = λ seed mine theirs message. wrap_padded message;
  unwrap = λ mine theirs sealed. unwrap_padded mine sealed;
  unwrap-wrap = λ seed mine my_public theirs their_public message sealed p q h.
      unwrap_padded-wrap_padded theirs message sealed q.0 h;
  length-public = λ mine my_public p. ap length p.1;
  length-wrap = λ seed mine theirs message sealed size h. length-wrap_padded message sealed h;
}

abbrev struct : Bytes
struct =
    replicate 8 34
    ++ (replicate 45 2
        ++ (replicate 32 5 ++ (replicate 52 0 ++ (3 ∷ replicate 7 0 ++ (32 ∷ text "hi")))))

abbrev recipient : Bytes
recipient = replicate 45 2

extract_acra_struct-total_example :
    ((n : ℕ) × (block : Bytes) × (extract_acra_struct (struct ++ text "more") ≡ ok (n, block))
      × (n ≤ length (struct ++ text "more"))
      × (take n (struct ++ text "more") ≡ block)
      × (length block ≡ n)
      × (validate block ≡ ok tt))
    ⊎ ((e : Error) × (extract_acra_struct (struct ++ text "more") ≡ err e))
extract_acra_struct-total_example = extract_acra_struct-total (struct ++ text "more")

-- The first key is of no pair.
decrypt_rotated-create_acra_struct_example :
    decrypt_rotated length_cell padding struct ((2 ∷ 3 ∷ []) ∷ (1 ∷ []) ∷ []) [] ≡ ok (text "hi")
unfolding create_acra_struct decrypt_acra_struct stored_length bytes_eq
decrypt_rotated-create_acra_struct_example =
    decrypt_rotated-create_acra_struct length_cell padding 0 0 (ok (replicate 32 5)) (1 ∷ [])
      recipient recipient (text "hi") [] (refl, refl) (omega arith) struct (1 ∷ [])
      ((2 ∷ 3 ∷ []) ∷ []) [] (refl, refl) refl ((external 1, refl), tt)
