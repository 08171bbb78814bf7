-- ===== src/Tests/ScanInputs.antt =====
-- The search for containers at concrete inputs.
use acra.Base.{replicate, suc, ◌≡◌, ◌≢◌, refl, [], ◌++◌, Bytes, length, text, arith}
use acra.Base.Outcome.{ok}
use acra.Scan.{finished, unfinished, process_acra_structs}
use acra.Scan.Terminates.{process_acra_structs-ne-unfinished}
use acra.Scan.Unchanged.{process_acra_structs-unchanged}

-- a tag in the middle of other data
abbrev buffer : Bytes
buffer = text "ab" ++ (replicate 8 34 ++ replicate 140 1)

process_acra_structs-ne-unfinished_example :
    process_acra_structs (λ b. ok (text "out")) (suc (length buffer)) buffer [] ≢ unfinished
process_acra_structs-ne-unfinished_example =
    process_acra_structs-ne-unfinished (λ b. ok (text "out")) buffer []

process_acra_structs-unchanged_example :
    process_acra_structs (λ b. ok b) (suc (length buffer)) buffer [] ≡ finished buffer
process_acra_structs-unchanged_example =
    process_acra_structs-unchanged (λ b. ok b) (λ b. refl) buffer [] (omega arith)
