-- ===== src/Envelope/Detect/Column.antt =====
-- A container inside a column is decrypted in its place.
use acra.Base.{
  ℕ, suc, ◌<◌, ◌≡◌, refl, ap, true, false, none, some, [], ◌∷◌, ◌++◌, Bytes, leb, ltb, length,
  bytes_eq, index_of, le→leb, le→ltb, length-append, arith, take-append, drop-append, append_assoc,
}
use acra.Base.Words.{is_negative}
use acra.Base.Outcome.{ok}
use acra.Scan.{Found, replaced, finished, scan}
use acra.Envelope.{Handler, Registry, tag_begin, min_size, serialize, process, get_handler_by_id}
use acra.Envelope.RoundTrip.{deserialize-serialize, envelope-serialize}
use acra.Envelope.Detect.{call_all, envelope_at, detect_on_column, on_envelope_decrypt}

-- two turns of the loop over one container
scan-one :
    (tag : Bytes) (at_tag : Bytes → Found) (fuel : ℕ) (whole before s after plain : Bytes)
    → index_of tag (before ++ (s ++ after)) ≡ some (length before)
    → index_of tag after ≡ none
    → at_tag (s ++ after) ≡ replaced plain (length s)
    → scan tag at_tag (suc (suc fuel)) whole [] (before ++ (s ++ after))
      ≡ finished (before ++ (plain ++ after))
unfolding scan
scan-one tag at_tag fuel whole before s after plain front behind found =
    rw (front, scan)
      (rw (drop-append before (s ++ after)) (
        rw (found, scan)
          (rw (drop-append before (s ++ after), drop-append s after)
            (rw (behind, scan)
              (rw
                (
                  drop-append before (s ++ after),
                  drop-append s after,
                  take-append before (s ++ after),
                )
                (ap finished (append_assoc before plain after)))))))

module _ (registry : Registry) (id : ℕ) (h : Handler) where
  envelope_at-container :
      (encrypted s after plain : Bytes)
      → get_handler_by_id id registry ≡ ok h
      → serialize encrypted id ≡ ok s
      → length (s ++ after) < 0x8000000000000000
      → process registry (s ++ after) ≡ ok plain
      → bytes_eq plain (s ++ after) ≡ false
      → envelope_at registry (on_envelope_decrypt registry ∷ []) (s ++ after)
        ≡ replaced plain (length s)
  unfolding envelope_at call_all on_envelope_decrypt
  envelope_at-container encrypted s after plain known made small opened changed =
      let (_, found) = deserialize-serialize registry id h known encrypted s after made small in
      let fits : leb (length s) (length (s ++ after)) ≡ true =
        le→leb (length s) (length (s ++ after)) (omega (arith, length-append s after)) in
      let positive : is_negative (length s) ≡ false =
        le→ltb 0x7fffffffffffffff (length s) (omega (arith, length-append s after)) in
      rw (found, envelope_at)
        (rw (opened, call_all) (rw (changed, call_all) (rw (positive, fits) refl)))

  -- `OnColumn` with the callback for decryption replaces a serialized container by what it decrypts
  -- to and keeps all bytes around it, where no tag of a container stands in front of it or behind
  -- it, its handler is registered, all from it on is shorter than 2^63, and the callback opens it and
  -- does not give it back as it is. Two turns of the loop are enough.
  pub detect_on_column-container :
      (encrypted before s after plain : Bytes) (fuel : ℕ)
      → get_handler_by_id id registry ≡ ok h
      → serialize encrypted id ≡ ok s
      → length (s ++ after) < 0x8000000000000000
      → process registry (s ++ after) ≡ ok plain
      → bytes_eq plain (s ++ after) ≡ false
      → index_of tag_begin (before ++ (s ++ after)) ≡ some (length before)
      → index_of tag_begin after ≡ none
      → detect_on_column registry
          (on_envelope_decrypt registry ∷ [])
          (suc (suc fuel))
          (before ++ (s ++ after))
        ≡ finished (before ++ (plain ++ after))
  unfolding detect_on_column
  detect_on_column-container encrypted before s after plain fuel known made small opened changed
        front behind =
      let size = (envelope-serialize registry id h known encrypted s made).1 in
      let enough : ltb (length (before ++ (s ++ after))) min_size ≡ false =
        le→ltb (length (before ++ (s ++ after))) min_size
          (omega (arith, length-append before (s ++ after), length-append s after, size)) in
      rw (enough, detect_on_column)
        (scan-one tag_begin (envelope_at registry (on_envelope_decrypt registry ∷ [])) fuel
          (before ++ (s ++ after)) before s after plain front behind
          (envelope_at-container encrypted s after plain known made small opened changed))
