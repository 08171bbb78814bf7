-- ===== src/Tests/SearchInputs.antt =====
-- Inputs for the theorems about searchable encryption: hmac.
use acra.Base.{
  ◌++◌, ◌≡◌, refl, true, false, Bool, none, some, [], ◌∷◌, Bytes, length, replicate, text, drop,
  ◌==◌, if◌then◌else◌,
}
use acra.Base.Outcome.{ok}
use acra.Search.{Mac, extract_hash, generate_hmac, is_equal}
use acra.Search.Column.{answered, idle, stored_column, on_both, on_both-checks}
use acra.Tests.Instances.{length-replicate}

-- The code of a message is made of its length.
abbrev length_mac : Mac
length_mac = record {
  mac = λ key message. replicate 32 (length message);
  length-mac = λ key message. length-replicate 32 (length message);
}

-- An envelope starts with a percent sign.
abbrev is_marked_envelope : Bytes → Bool
is_marked_envelope [] = false
is_marked_envelope (b ∷ bs) = b == b'%'

abbrev sealed_hi : Bytes
sealed_hi = text "%hi"

on_both-checks_example :
    on_both length_mac is_marked_envelope
      (ok [])
      (drop 1)
      (idle length_mac is_marked_envelope [] (text "hi") sealed_hi [] (drop 1) none)
      (stored_column length_mac is_marked_envelope [] (text "hi") sealed_hi [] (drop 1) none)
    ≡ (if is_equal length_mac (ok []) (generate_hmac length_mac [] (text "hi")) (text "hi")
        then answered
            (record {
              hash_data = none;
              matched_hash = none;
              raw_data = generate_hmac length_mac [] (text "hi") ++ sealed_hi;
            })
            (record { column = text "hi"; is_marked = false })
        else answered
            (record {
              hash_data = none;
              matched_hash = some (generate_hmac length_mac [] (text "hi"));
              raw_data = generate_hmac length_mac [] (text "hi") ++ sealed_hi;
            })
            (record {
              column = generate_hmac length_mac [] (text "hi") ++ sealed_hi;
              is_marked = true;
            }))
unfolding extract_hash
on_both-checks_example =
    on_both-checks length_mac is_marked_envelope [] (text "hi") sealed_hi [] (drop 1) none (ok [])
      refl refl

-- 40 bytes that start as a hash
abbrev unlucky : Bytes
unlucky = replicate 40 127
