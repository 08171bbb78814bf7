-- ===== src/Tests/EscapeInputs.antt =====
-- The escape format at a concrete input.
use acra.Base.{◌≡◌, [], ◌∷◌, arith}
use acra.Base.Outcome.{ok}
use acra.Escape.{encode_to_octal, decode_octal}
use acra.Escape.RoundTrip.{decode_octal-encode_to_octal}

decode_octal-encode_to_octal_example :
    decode_octal (encode_to_octal (0 ∷ 92 ∷ 65 ∷ 255 ∷ [])) ≡ ok (0 ∷ 92 ∷ 65 ∷ 255 ∷ [])
decode_octal-encode_to_octal_example =
    decode_octal-encode_to_octal (0 ∷ 92 ∷ 65 ∷ 255 ∷ [])
      (omega arith, (omega arith, (omega arith, (omega arith, tt))))
