-- ===== src/Scan/Terminates.antt =====
-- The search comes to an end.
use acra.Base.{
  ℕ, zero, suc, ◌<◌, ◌≡◌, ◌≢◌, some, [], ◌∷◌, Bytes, ltb, length, take, drop, bytes_eq, index_of,
  arith, Bool-cases, Option-cases, inl, inr, length-drop,
}
use acra.Base.Outcome.{Outcome, ok, err, panic}
use acra.Crypto.{Error}
use acra.Acrastruct.{get_data_length, total_length, min_length}
use acra.Scan.{
  Found, replaced, moved_back, unfinished, scan, struct_at, replaced_by, struct_of_length,
  Found-cases, process_acra_structs,
}

-- A pattern that is not empty is found before the end.
index_of-bound : (p : ℕ) (ps b : Bytes) (i : ℕ) → index_of (p ∷ ps) b ≡ some i → i < length b
unfolding index_of
index_of-bound p ps [] i h = absurd (ground arith)
index_of-bound p ps (x ∷ b) i h =
    elim (Bool-cases (bytes_eq (take (length (p ∷ ps)) (x ∷ b)) (p ∷ ps))) [
      | inl e ↦ ground arith
      | inr e ↦ elim (Option-cases (index_of (p ∷ ps) b)) [
        | inl (j, later) ↦ ground (arith, index_of-bound p ps b j later)
        | inr later ↦ ground arith
      ]
    ]

scan-ne-unfinished :
    (p : ℕ) (ps : Bytes) (at_tag : Bytes → Found)
    (moves : (b processed : Bytes) (n : ℕ) → at_tag b ≡ replaced processed n → 0 < n)
    (ahead : (b processed : Bytes) (k : ℕ) → at_tag b ≢ moved_back processed k) (fuel : ℕ)
    (whole out rest : Bytes)
    → length rest < fuel
    → scan (p ∷ ps) at_tag fuel whole out rest ≢ unfinished
unfolding scan
scan-ne-unfinished p ps at_tag moves ahead zero whole out rest enough h = omega (arith, enough)
scan-ne-unfinished p ps at_tag moves ahead (suc fuel) whole out rest enough h =
    elim (Option-cases (index_of (p ∷ ps) rest)) [
      | inr e ↦ ground arith
      | inl (i, e) ↦
          let here : Bytes = drop i rest in
          let start = index_of-bound p ps rest i e in
          let left = length-drop i rest in
          elim (Found-cases (at_tag here)) [
            | inl one ↦
                scan-ne-unfinished p ps at_tag moves ahead fuel whole _ (drop 1 here)
                  (omega (arith, length-drop 1 here)) (rw (e, scan, one) at h)
            | inr (inl (d, n, some_left)) ↦
                scan-ne-unfinished p ps at_tag moves ahead fuel whole _ (drop n here)
                  (omega (arith, length-drop n here, moves here d n some_left))
                  (rw (e, scan, some_left) at h)
            | inr (inr (inl (d, k, back))) ↦ absurd (ahead here d k back)
            | inr (inr (inr (inl (e', halt)))) ↦ ground arith
            | inr (inr (inr (inr halt))) ↦ ground arith
          ]
    ]

replaced_by-moves :
    (n k : ℕ) (o : Outcome Error Bytes) (d : Bytes) → replaced_by n o ≡ replaced d k → n ≡ k
replaced_by-moves n k (ok b) d h = cc
replaced_by-moves n k (err e) d h = cc
replaced_by-moves n k panic d h = cc

struct_of_length-moves :
    (on_struct : Bytes → Outcome Error Bytes) (b d : Bytes) (o : Outcome Error ℕ) (n : ℕ)
    → struct_of_length on_struct b o ≡ replaced d n
    → 0 < n
struct_of_length-moves on_struct b d (err e) n h = absurd (ground arith)
struct_of_length-moves on_struct b d panic n h = absurd (ground arith)
struct_of_length-moves on_struct b d (ok k) n h =
    let total = total_length k in
    ground (arith, replaced_by-moves total n (on_struct (take total b)) d)

struct_at-moves :
    (on_struct : Bytes → Outcome Error Bytes) (b d : Bytes) (n : ℕ)
    → struct_at on_struct b ≡ replaced d n
    → 0 < n
unfolding struct_at
struct_at-moves on_struct b d n h =
    ground (arith, struct_of_length-moves on_struct b d (get_data_length b) n)

replaced_by-ne-moved_back :
    (n k : ℕ) (o : Outcome Error Bytes) (d : Bytes) → replaced_by n o ≢ moved_back d k
replaced_by-ne-moved_back n k (ok b) d h = cc
replaced_by-ne-moved_back n k (err e) d h = cc
replaced_by-ne-moved_back n k panic d h = cc

struct_of_length-ne-moved_back :
    (on_struct : Bytes → Outcome Error Bytes) (b d : Bytes) (o : Outcome Error ℕ) (k : ℕ)
    → struct_of_length on_struct b o ≢ moved_back d k
struct_of_length-ne-moved_back on_struct b d (err e) k h = cc
struct_of_length-ne-moved_back on_struct b d panic k h = cc
struct_of_length-ne-moved_back on_struct b d (ok n) k h =
    let total = total_length n in
    ground (arith, replaced_by-ne-moved_back total k (on_struct (take total b)) d)

struct_at-ne-moved_back :
    (on_struct : Bytes → Outcome Error Bytes) (b d : Bytes) (k : ℕ)
    → struct_at on_struct b ≢ moved_back d k
unfolding struct_at
struct_at-ne-moved_back on_struct b d k h =
    ground (arith, struct_of_length-ne-moved_back on_struct b d (get_data_length b) k)

-- `ProcessAcraStructs` always comes to an end: one turn of its loop for each byte, and one more.
pub process_acra_structs-ne-unfinished :
    (on_struct : Bytes → Outcome Error Bytes) (in_buffer out_buffer : Bytes)
    → process_acra_structs on_struct (suc (length in_buffer)) in_buffer out_buffer ≢ unfinished
unfolding process_acra_structs
process_acra_structs-ne-unfinished on_struct in_buffer out_buffer h =
    elim (Bool-cases (ltb (length in_buffer) min_length)) [
      | inl short ↦ ground arith
      | inr long ↦
          scan-ne-unfinished _ _ (struct_at on_struct) (struct_at-moves on_struct)
            (struct_at-ne-moved_back on_struct) (suc (length in_buffer)) in_buffer [] in_buffer
            (omega arith) (rw long at h)
    ]
