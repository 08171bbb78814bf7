-- ===== src/Tests/EnvelopeInputs.antt =====
-- Serialized containers at concrete inputs.
use acra.Base.{replicate, ◌≡◌, refl, [], ◌∷◌, ◌++◌, Bytes, text, arith, bytes_eq, index_of, inl}
use acra.Base.Outcome.{ok}
use acra.Acrablock.{create_acra_block, decrypt}
use acra.Envelope.Handlers.{encrypt_block, decrypt_block, acra_block_handler}
use acra.Envelope.{
  Handler, acra_block_id, get_handler_by_id, serialize, deserialize, process, encrypt_with_handler,
  decrypt_with_handler, get_envelope_id,
}
use acra.Scan.{finished}
use acra.Envelope.Detect.{detect_on_column, on_envelope_decrypt}
use acra.Envelope.Detect.Column.{detect_on_column-container}
use acra.Envelope.RoundTrip.{process-encrypt_with_handler}
use acra.Tests.Instances.{length_cell}

abbrev key : Bytes
key = 1 ∷ 2 ∷ []

abbrev other_key : Bytes
other_key = 1 ∷ 2 ∷ 3 ∷ []

abbrev block_handler : Handler
block_handler =
    acra_block_handler length_cell (ok (replicate 32 5)) 0 0 (ok (other_key ∷ key ∷ [])) (ok key)

abbrev block : Bytes
block =
    34 ∷ 34 ∷ 34 ∷ 34 ∷ 50 ∷ 0 ∷ 0 ∷ 0 ∷ 0 ∷ 0 ∷ 0 ∷ 0 ∷ 0 ∷ 2 ∷ 2 ∷ 0 ∷ 33 ∷ 0 ∷ 2 ∷ replicate 32 5
    ++ 32 ∷ text "hi"

abbrev container : Bytes
container = text "%%%" ++ (66 ∷ replicate 7 0 ++ (0xf0 ∷ block))

process-encrypt_with_handler_example : process (block_handler ∷ []) container ≡ ok (text "hi")
unfolding get_handler_by_id encrypt_with_handler encrypt_block create_acra_block bytes_eq
process-encrypt_with_handler_example =
    process-encrypt_with_handler length_cell (ok (replicate 32 5)) 0 0 key (other_key ∷ []) []
      (block_handler ∷ []) (text "hi") container refl (inl refl, tt) refl refl refl (omega arith)

detect_on_column-container_example :
    detect_on_column
      (block_handler ∷ [])
      (on_envelope_decrypt (block_handler ∷ []) ∷ [])
      2
      (text "a " ++ (container ++ text " b"))
    ≡ finished (text "a " ++ (text "hi" ++ text " b"))
unfolding get_handler_by_id serialize process decrypt_with_handler deserialize get_envelope_id
    index_of bytes_eq decrypt_block decrypt
detect_on_column-container_example =
    detect_on_column-container (block_handler ∷ []) acra_block_id block_handler block (text "a ")
      container (text " b") (text "hi") 0 refl refl (omega arith) refl refl refl refl
