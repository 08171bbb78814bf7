-- ===== src/Acrastruct/Safe.antt =====
-- The reading of AcraStructs never panics, whatever the data.
use acra.Base.{
  ◌⊎◌, ℕ, ◌-◌, ◌≤◌, ◌≡◌, ◌≢◌, refl, sym, ap, ◌∙◌, List, [], ◌∷◌, Bytes, length, take, drop,
  bytes_eq_iff, arith, inl, inr, length-take,
}
use acra.Base.Outcome.{Outcome, ok, err, panic, Outcome-cases, ok_pair}
use acra.Crypto.{Error, Cell, Messenger}
use acra.Acrastruct.{
  stored_length, validate, extract_acra_struct, validated, total_length, tag_begin,
  decrypt_acra_struct, decrypt_each,
}

validate-ne-panic : (b : Bytes) → validate b ≢ panic
unfolding validate
validate-ne-panic b h = ground arith

validated-ne-panic :
    (v : Outcome Error (Unit {0})) (n : ℕ) (b : Bytes) → v ≢ panic → validated v n b ≢ panic
validated-ne-panic (ok x) n b h e = cc
validated-ne-panic (err x) n b h e = cc
validated-ne-panic panic n b h e = h refl

-- `ExtractAcraStruct` panics on no data.
extract_acra_struct-ne-panic : (b : Bytes) → extract_acra_struct b ≢ panic
unfolding extract_acra_struct
extract_acra_struct-ne-panic b h =
    let n = total_length (stored_length b) in
    ground
      (arith, validated-ne-panic (validate (take n b)) n (take n b) (validate-ne-panic (take n b)))

validate-ok :
    (b : Bytes)
    → validate b ≡ ok tt
    → (145 ≤ length b) × (take 8 b ≡ tag_begin) × (stored_length b ≡ length b - 145)
unfolding validate
validate-ok b h = (ground arith, (bytes_eq_iff (take 8 b) tag_begin).0 (ground arith), ground arith)

-- What `ExtractAcraStruct` returns is a valid struct, and the front of the data at the length that
-- comes with it.
extract_acra_struct-IsValid :
    (b block : Bytes) (n : ℕ)
    → extract_acra_struct b ≡ ok (n, block)
    → (n ≤ length b) × (take n b ≡ block) × (length block ≡ n) × (validate block ≡ ok tt)
unfolding extract_acra_struct
extract_acra_struct-IsValid b block n h =
    let m = total_length (stored_length b) in
    elim (Outcome-cases (validate (take m b))) [
      | inl (valid, e) ↦
          let same : ◌≡◌ {A = Outcome Error (ℕ × Bytes)} (ok (m, take m b)) (ok (n, block)) =
            ground arith in
          let (is_n, is_block) = ok_pair same in
          let fits : m ≤ length b = ground arith in
          let prefix : take n b ≡ block = rw is_n at is_block in
          let bound : n ≤ length b = omega arith in
          (
            bound,
            prefix,
            sym (ap length prefix) ∙ length-take n b bound,
            ap (λ (x : Bytes). validate x) (sym is_block) ∙ e,
          )
      | inr (inl (e', e)) ↦ absurd (ground arith)
      | inr (inr e) ↦ absurd (validate-ne-panic (take m b) e)
    ]

-- On any data, `ExtractAcraStruct` returns an error, or a valid struct that is the front of the data
-- at the length that comes with it; it never panics.
pub extract_acra_struct-total :
    (b : Bytes)
    → ((n : ℕ) × (block : Bytes) × (extract_acra_struct b ≡ ok (n, block))
        × (n ≤ length b)
        × (take n b ≡ block)
        × (length block ≡ n)
        × (validate block ≡ ok tt))
      ⊎ ((e : Error) × (extract_acra_struct b ≡ err e))
extract_acra_struct-total b = elim (Outcome-cases (extract_acra_struct b)) [
  | inl ((n, block), found) ↦
      let (p, q, r, v) = extract_acra_struct-IsValid b block n found in
      inl (n, block, found, p, q, r, v)
  | inr (inl r) ↦ inr r
  | inr (inr f) ↦ absurd (extract_acra_struct-ne-panic b f)
]

module _ (c : Cell) (m : Messenger)
    (unseal-safe : (key sealed context : Bytes) → c.unseal key sealed context ≢ panic)
    (unwrap-safe : (private_key public_key sealed : Bytes)
      → m.unwrap private_key public_key sealed ≢ panic) where
  decrypt_acra_struct-ne-panic :
      (b private_key context : Bytes) → decrypt_acra_struct c m b private_key context ≢ panic
  unfolding decrypt_acra_struct
  decrypt_acra_struct-ne-panic b private_key context h = elim (Outcome-cases (validate b)) [
    | inl (valid, e) ↦
        elim (Outcome-cases (m.unwrap private_key (take 45 (drop 8 b)) (take 84 (drop 53 b)))) [
          | inl (key, u) ↦
              unseal-safe key (drop 145 b) context (rw (e, u, decrypt_acra_struct) at h)
          | inr (inl (e', u)) ↦ ground arith
          | inr (inr u) ↦ unwrap-safe _ _ _ u
        ]
    | inr (inl (e', e)) ↦ ground arith
    | inr (inr e) ↦ validate-ne-panic b e
  ]

  -- `DecryptRotatedAcrastruct` panics on no data and with no keys, where the cryptography does not.
  decrypt_each-ne-panic :
      (e : Error) (b : Bytes) (private_keys : List Bytes) (context : Bytes)
      → decrypt_each c m e b private_keys context ≢ panic
  unfolding decrypt_each
  decrypt_each-ne-panic e b [] context h = cc
  decrypt_each-ne-panic e b (k ∷ ks) context h =
      elim (Outcome-cases (decrypt_acra_struct c m b k context)) [
        | inl (plain, d) ↦ ground arith
        | inr (inl (e', d)) ↦ decrypt_each-ne-panic e' b ks context (rw (d, decrypt_each) at h)
        | inr (inr d) ↦ decrypt_acra_struct-ne-panic b k context d
      ]
