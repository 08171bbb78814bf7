-- ===== src/Scan.antt =====
-- The search of a buffer for containers: the loop of `ProcessAcraStructs` of acrastruct/utils.go, with
-- the buffers apart in memory, and of `EnvelopeDetector.OnColumn` of crypto/envelope_detector.go.
pub mod Terminates
pub mod Unchanged
use acra.Base.{
  copy_at, ℕ, zero, suc, ◌+◌, ◌-◌, ◌%◌, ◌<◌, ◌≡◌, Bool, true, false, not, ◌&&◌, ◌||◌, Option, none,
  some, List, [], ◌∷◌, ◌++◌, ◌==◌, Bytes, if◌then◌else◌, ltb, leb, length, take, drop, bytes_eq,
  index_of, ◌⊎◌, inl, inr, refl,
}
use acra.Base.Words.{is_negative}
use acra.Base.Outcome.{Outcome, ok, err, panic}
use acra.Crypto.{Error}
use acra.Acrastruct as Struct
use acra.Acrastruct.{get_data_length, total_length, min_length}

-- What the body of the loop does at a tag. The index of `OnColumn` is an `int`: a length from 2^63 up
-- moves it back.
pub data Found : Type 0 where
  shift_one : Found
  replaced : Bytes → ℕ → Found
  moved_back : Bytes → ℕ → Found
  refused : Error → Found
  panicked : Found

-- `unfinished` is a loop that ran out of fuel.
pub data Scan : Type 0 where
  finished : Bytes → Scan
  failed : Bytes → Error → Scan
  crashed unfinished : Scan

pub Found-cases :
    (s : Found)
    → (s ≡ shift_one)
      ⊎ ((d : Bytes) × (n : ℕ) × (s ≡ replaced d n))
      ⊎ ((d : Bytes) × (k : ℕ) × (s ≡ moved_back d k))
      ⊎ ((e : Error) × (s ≡ refused e))
      ⊎ (s ≡ panicked)
Found-cases shift_one = inl refl
Found-cases (replaced d n) = inr (inl (d, n, refl))
Found-cases (moved_back d k) = inr (inr (inl (d, k, refl)))
Found-cases (refused e) = inr (inr (inr (inl (e, refl))))
Found-cases panicked = inr (inr (inr (inr refl)))

abbrev pub replaced_by : ℕ → Outcome Error Bytes → Found
replaced_by n (ok processed) = replaced processed n
replaced_by n (err e) = refused e
replaced_by n panic = panicked

module _ (tag : Bytes) (at_tag : Bytes → Found) where
  -- The loop, from the whole input, the output so far and the rest of the input. A slice from in
  -- front of the input panics.
  unfoldable pub scan : ℕ → Bytes → Bytes → Bytes → Scan
  scan zero whole out rest = unfinished
  scan (suc fuel) whole out rest = elim (index_of tag rest) [
    | none ↦ finished (out ++ rest)
    | some i ↦ elim (at_tag (drop i rest)) [
      | shift_one ↦
          scan fuel whole ((out ++ take i rest) ++ take 1 (drop i rest)) (drop 1 (drop i rest))
      | replaced processed n ↦
          scan fuel whole ((out ++ take i rest) ++ processed) (drop n (drop i rest))
      | moved_back processed k ↦
          let at = length whole - length (drop i rest) in
          let again = scan fuel whole ((out ++ take i rest) ++ processed) (drop (at - k) whole) in
          if leb k at then again else crashed
      | refused e ↦ failed whole e
      | panicked ↦ crashed
    ]
  ]

module _ (on_container : Bytes → Outcome Error Bytes) where
  -- the body of the loop of `ProcessAcraStructs`
  abbrev pub struct_of_length : Bytes → Outcome Error ℕ → Found
  struct_of_length here (ok data_length) =
      if not (is_negative (total_length data_length))
        && ltb 0 (total_length data_length)
        && leb (total_length data_length) (length here)
      then replaced_by (total_length data_length)
          (on_container (take (total_length data_length) here))
      else shift_one
  struct_of_length here (err e) = shift_one
  struct_of_length here panic = panicked

  unfoldable pub struct_at : Bytes → Found
  unfolding get_data_length
  struct_at here =
      if ltb min_length (length here)
      then struct_of_length here (get_data_length here)
      else shift_one

  -- `ProcessAcraStructs`: a buffer too short for a struct is copied over the output.
  unfoldable pub process_acra_structs : ℕ → Bytes → Bytes → Scan
  unfolding scan struct_at
  process_acra_structs fuel in_buffer out_buffer =
      if ltb (length in_buffer) min_length
      then finished (copy_at 0 in_buffer out_buffer)
      else scan Struct.tag_begin struct_at fuel in_buffer [] in_buffer
