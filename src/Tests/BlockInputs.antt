-- ===== src/Tests/BlockInputs.antt =====
-- AcraBlocks at concrete inputs.
use acra.Base.{replicate, ◌≡◌, refl, [], ◌∷◌, ◌++◌, inl, Bytes, text, bytes_eq, arith}
use acra.Base.Outcome.{ok}
use acra.Acrablock.{create_acra_block, extract_acra_block, decrypt}
use acra.Acrablock.RoundTrip.{decrypt-create, extract-create}
use acra.Tests.Instances.{length_cell}

abbrev data_key : Bytes
data_key = replicate 32 5

abbrev key : Bytes
key = 1 ∷ 2 ∷ []

abbrev other_key : Bytes
other_key = 1 ∷ 2 ∷ 3 ∷ []

-- "hi" under `key`
abbrev block : Bytes
block =
    34 ∷ 34 ∷ 34 ∷ 34 ∷ 50 ∷ 0 ∷ 0 ∷ 0 ∷ 0 ∷ 0 ∷ 0 ∷ 0 ∷ 0 ∷ 2 ∷ 2 ∷ 0 ∷ 33 ∷ 0 ∷ 2 ∷ data_key
    ++ 32 ∷ text "hi"

decrypt-create_example : decrypt length_cell block (other_key ∷ key ∷ []) [] ≡ ok (text "hi")
unfolding create_acra_block bytes_eq
decrypt-create_example =
    decrypt-create length_cell 0 0 (ok data_key) (text "hi") key [] block (other_key ∷ []) [] refl
      (inl refl, tt)

extract-create_example : extract_acra_block (block ++ text "rest") ≡ ok (54, block)
unfolding create_acra_block bytes_eq
extract-create_example =
    extract-create length_cell 0 0 (ok data_key) (text "hi") key [] block (text "rest") refl
      (omega arith)
