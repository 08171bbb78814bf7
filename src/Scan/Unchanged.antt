-- ===== src/Scan/Unchanged.antt =====
-- A processor that changes nothing leaves the buffer as it is.
use acra.Base.{
  ℕ, zero, suc, ◌≤◌, ◌≡◌, refl, ap, ◌∙◌, Bool, true, false, [], ◌++◌, Bytes, if◌then◌else◌, ltb,
  length, take, drop, index_of, arith, Bool-cases, Option-cases, inl, inr, ◌⊎◌, le→ltb,
  take-append-drop, append_assoc,
}
use acra.Base.Outcome.{Outcome, ok}
use acra.Crypto.{Error}
use acra.Acrastruct.{min_length, tag_begin}
use acra.Scan.{
  Found, shift_one, replaced, moved_back, refused, panicked, finished, unfinished, scan, struct_at,
  replaced_by, Found-cases, process_acra_structs,
}
use acra.Scan.Terminates.{process_acra_structs-ne-unfinished}

glue :
    (out rest : Bytes) (i n : ℕ)
    → ((out ++ take i rest) ++ take n (drop i rest)) ++ drop n (drop i rest) ≡ out ++ rest
glue out rest i n =
    append_assoc (out ++ take i rest) (take n (drop i rest)) (drop n (drop i rest))
    ∙ (ap (λ (b : Bytes). (out ++ take i rest) ++ b) (take-append-drop n (drop i rest))
        ∙ (append_assoc out (take i rest) (drop i rest)
            ∙ ap (λ (b : Bytes). out ++ b) (take-append-drop i rest)))

-- At a tag, the front of the data is left, or nothing.
abbrev Keeps : Bytes → Found → Type 0
Keeps b shift_one = Unit
Keeps b (replaced d n) = d ≡ take n b
Keeps b (moved_back d k) = ⊥
Keeps b (refused e) = ⊥
Keeps b panicked = ⊥

scan-Keeps :
    (tag : Bytes) (at_tag : Bytes → Found) (keeps : (b : Bytes) → Keeps b (at_tag b)) (fuel : ℕ)
    (whole out rest : Bytes)
    → (scan tag at_tag fuel whole out rest ≡ unfinished)
      ⊎ (scan tag at_tag fuel whole out rest ≡ finished (out ++ rest))
unfolding scan
scan-Keeps tag at_tag keeps zero whole out rest = inl refl
scan-Keeps tag at_tag keeps (suc fuel) whole out rest = elim (Option-cases (index_of tag rest)) [
  | inr e ↦ rw (e, scan) (inr refl)
  | inl (i, e) ↦
      let here : Bytes = drop i rest in
      elim (Found-cases (at_tag here)) [
        | inl one ↦
            rw (e, scan, one)
              (rw (glue out rest i 1) at (
                scan-Keeps tag at_tag keeps fuel whole ((out ++ take i rest) ++ take 1 here)
                  (drop 1 here)))
        | inr (inl (d, n, some_left)) ↦
            let same : d ≡ take n here = rw some_left at (keeps here) in
            rw (e, scan, some_left)
              (rw same (
                rw (glue out rest i n) at (
                  scan-Keeps tag at_tag keeps fuel whole ((out ++ take i rest) ++ take n here)
                    (drop n here))))
        | inr (inr (inl (d, k, back))) ↦ absurd (rw back at (keeps here))
        | inr (inr (inr (inl (e', halt)))) ↦ absurd (rw halt at (keeps here))
        | inr (inr (inr (inr halt))) ↦ absurd (rw halt at (keeps here))
      ]
]

module _ (on_struct : Bytes → Outcome Error Bytes) (same : (b : Bytes) → on_struct b ≡ ok b) where
  guarded-Keeps :
      (b : Bytes) (n : ℕ) (t : Bool)
      → Keeps b (if t then replaced_by n (on_struct (take n b)) else shift_one)
  guarded-Keeps b n true = rw (same (take n b)) refl
  guarded-Keeps b n false = tt

  struct_at-Keeps : (b : Bytes) → Keeps b (struct_at on_struct b)
  unfolding struct_at
  struct_at-Keeps b = elim (Bool-cases (ltb min_length (length b))) [
    | inr short ↦ rw (short, struct_at) tt
    | inl long ↦
        let enough : ltb (length b) min_length ≡ false = ground arith in
        rw (long, struct_at) (rw enough (guarded-Keeps b _ _))
  ]

  -- With a processor that returns each container as it is, `ProcessAcraStructs` comes to an end and
  -- returns the buffer as it is, if the buffer has room for a struct.
  pub process_acra_structs-unchanged :
      (in_buffer out_buffer : Bytes)
      → min_length ≤ length in_buffer
      → process_acra_structs on_struct (suc (length in_buffer)) in_buffer out_buffer
        ≡ finished in_buffer
  unfolding process_acra_structs
  process_acra_structs-unchanged b out room =
      let long : ltb (length b) min_length ≡ false = le→ltb (length b) min_length room in
      elim (scan-Keeps tag_begin (struct_at on_struct) struct_at-Keeps (suc (length b)) b [] b) [
        | inl h ↦ absurd (process_acra_structs-ne-unfinished on_struct b out (rw long h))
        | inr h ↦ rw long h
      ]
