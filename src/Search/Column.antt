-- ===== src/Search/Column.antt =====
-- The processor of columns, hmac/dataProcessor.go. It stands twice in the chain of a column: in front
-- of the decryption it takes the hash off, and behind it it checks the hash.
use acra.Base.{
  ℕ, ◌≡◌, refl, sym, ap, ◌∙◌, Bool, true, false, Option, none, some, [], ◌++◌, Bytes, inl, inr,
  bytes_eq_refl, if◌then◌else◌, ltb, le→ltb, length-append, length, take, drop, take-append,
  drop-append, arith, Bool-cases,
}
use acra.Base.Outcome.{Outcome, ok}
use acra.Crypto.{Error}
use acra.Search.{Mac, extract_hash, generate_hmac, is_equal}

-- The fields of a `Processor`; a nil slice or a nil interface is `none`.
pub record Processor : Type 0 where
  pub hash_data : Option Bytes
  pub matched_hash : Option Bytes
  pub raw_data : Bytes

-- `NewHMACProcessor`
abbrev pub new_processor : Processor
new_processor = record { hash_data = none; matched_hash = none; raw_data = [] }

-- What `OnColumn` answers with: the data, and whether the context is marked as not decrypted.
pub record Answer : Type 0 where
  pub column : Bytes
  pub is_marked : Bool

pub data Step : Type 0 where
  answered : Processor → Answer → Step
  -- a call on a nil interface
  crashed : Step

module _ (m : Mac) where
  -- `Process`: whether the data passes, where it does not panic
  unfoldable pub process_hash : Outcome Error Bytes → Processor → Bytes → Option Bool
  process_hash hmac_key p message = elim p.hash_data [
    | none ↦ some true
    | some _ ↦ elim p.matched_hash [
      | none ↦ none
      | some hash ↦ some (is_equal m hmac_key hash message)
    ]
  ]

  -- the rest of `OnColumn`, for data that passed; with the search for an envelope
  unfoldable pub next_hash : (Bytes → Bool) → Processor → Bytes → Step
  unfolding extract_hash
  next_hash is_envelope p column = elim (extract_hash column) [
    | none ↦
        answered (record p { hash_data = none; matched_hash = none })
          (record { column = column; is_marked = false })
    | some hash ↦
        if is_envelope (drop (length hash) column)
        then answered
            (record {
              hash_data = some (take (length hash) column);
              matched_hash = some hash;
              raw_data = column;
            })
            (record { column = drop (length hash) column; is_marked = false })
        else answered (record p { matched_hash = none })
            (record { column = column; is_marked = false })
  ]

  -- `OnColumn`
  unfoldable pub on_hashed_column : (Bytes → Bool) → Outcome Error Bytes → Processor → Bytes → Step
  unfolding process_hash next_hash
  on_hashed_column is_envelope hmac_key p column = elim (process_hash hmac_key p column) [
    | none ↦ crashed
    | some false ↦
        answered (record p { hash_data = none }) (record { column = p.raw_data; is_marked = true })
    | some true ↦ next_hash is_envelope p column
  ]

  -- A column on its way to the client: `OnColumn`, the decryption, and `OnColumn` again.
  unfoldable pub on_both :
      (Bytes → Bool) → Outcome Error Bytes → (Bytes → Bytes) → Processor → Bytes → Step
  unfolding on_hashed_column
  on_both is_envelope hmac_key open_data p column =
      elim (on_hashed_column is_envelope hmac_key p column) [
        | crashed ↦ crashed
        | answered p1 a ↦ on_hashed_column is_envelope hmac_key p1 (open_data a.column)
      ]

  -- the processor where it has taken a hash off
  abbrev pub waiting : Bytes → Bytes → Processor
  waiting hash column = record {
    hash_data = some hash;
    matched_hash = some hash;
    raw_data = column;
  }

  module _ (is_envelope : Bytes → Bool) (hmac_key : Outcome Error Bytes) (p : Processor)
      (column : Bytes) where
    on_hashed_column-passed :
        process_hash hmac_key p column ≡ some true
        → on_hashed_column is_envelope hmac_key p column ≡ next_hash is_envelope p column
    unfolding on_hashed_column
    on_hashed_column-passed e = rw (e, on_hashed_column) refl

    on_hashed_column-refused :
        process_hash hmac_key p column ≡ some false
        → on_hashed_column is_envelope hmac_key p column
          ≡ answered
              (record p { hash_data = none })
              (record { column = p.raw_data; is_marked = true })
    unfolding on_hashed_column
    on_hashed_column-refused e = rw (e, on_hashed_column) refl

    next_hash-none :
        extract_hash column ≡ none
        → next_hash is_envelope p column
          ≡ answered
              (record p { hash_data = none; matched_hash = none })
              (record { column = column; is_marked = false })
    unfolding next_hash
    next_hash-none e = rw (e, next_hash) refl

    next_hash-bare :
        (hash : Bytes)
        → extract_hash column ≡ some hash
        → is_envelope (drop (length hash) column) ≡ false
        → next_hash is_envelope p column
          ≡ answered
              (record p { matched_hash = none })
              (record { column = column; is_marked = false })
    unfolding next_hash
    next_hash-bare hash e f = rw (e, next_hash) (rw (f, next_hash) refl)

  process_hash-waiting :
      (hmac_key : Outcome Error Bytes) (hash column message : Bytes)
      → process_hash hmac_key (waiting hash column) message
        ≡ some (is_equal m hmac_key hash message)
  unfolding process_hash
  process_hash-waiting hmac_key hash column message = refl

  take_mac : (key message rest : Bytes) → take 32 (m.mac key message ++ rest) ≡ m.mac key message
  take_mac key message rest =
      ap (λ (n : ℕ). take n (m.mac key message ++ rest)) (sym (m.length-mac key message))
      ∙ take-append (m.mac key message) rest

  extract_hash-generate_hmac :
      (key message envelope : Bytes)
      → extract_hash (generate_hmac m key message ++ envelope) ≡ some (generate_hmac m key message)
  unfolding extract_hash generate_hmac
  extract_hash-generate_hmac key message envelope =
      let long : ltb (length (m.mac key message ++ envelope)) 32 ≡ false =
        le→ltb (length (m.mac key message ++ envelope)) 32
          (omega (arith, length-append (m.mac key message) envelope, m.length-mac key message)) in
      rw (long, take_mac key message envelope) refl

  module _ (is_envelope : Bytes → Bool) (key message envelope raw : Bytes)
      (open_data : Bytes → Bytes) (matched_hash : Option Bytes) where
    -- a column that was stored for a message
    abbrev pub stored_column : Bytes
    stored_column = generate_hmac m key message ++ envelope

    -- between two columns: no hash waits to be checked
    abbrev pub idle : Processor
    idle = record { hash_data = none; matched_hash = matched_hash; raw_data = raw }

    take_hash_off :
        (hmac_key : Outcome Error Bytes)
        → is_envelope envelope ≡ true
        → on_hashed_column is_envelope hmac_key idle stored_column
          ≡ answered
              (waiting (generate_hmac m key message) stored_column)
              (record { column = envelope; is_marked = false })
    unfolding on_hashed_column process_hash next_hash
    take_hash_off hmac_key found =
        let hash = generate_hmac m key message in
        let off = drop-append hash envelope in
        let there : is_envelope (drop (length hash) stored_column) ≡ true =
          ap is_envelope off ∙ found in
        rw (extract_hash-generate_hmac key message envelope, next_hash)
          (rw (there, next_hash) (rw (off, take-append hash envelope) refl))

    after_hash_off :
        (hmac_key : Outcome Error Bytes)
        → is_envelope envelope ≡ true
        → on_both is_envelope hmac_key open_data idle stored_column
          ≡ on_hashed_column is_envelope hmac_key
              (waiting (generate_hmac m key message) stored_column)
              (open_data envelope)
    unfolding on_both
    after_hash_off hmac_key found = rw (take_hash_off hmac_key found, on_both) refl

    -- A column that was stored for a message, on its way through `OnColumn`, the decryption and
    -- `OnColumn` again, where what it decrypts to does not start as a hash: the decrypted data comes
    -- out where the key is there and its hash is the one in front of the envelope, and otherwise the
    -- column comes out as it was stored, and marked. No hash waits afterwards.
    pub on_both-checks :
        (hmac_key : Outcome Error Bytes)
        → is_envelope envelope ≡ true
        → extract_hash (open_data envelope) ≡ none
        → on_both is_envelope hmac_key open_data idle stored_column ≡ (
            if is_equal m hmac_key (generate_hmac m key message) (open_data envelope)
            then answered
                (record { hash_data = none; matched_hash = none; raw_data = stored_column })
                (record { column = open_data envelope; is_marked = false })
            else answered
                (record {
                  hash_data = none;
                  matched_hash = some (generate_hmac m key message);
                  raw_data = stored_column;
                })
                (record { column = stored_column; is_marked = true }))
    unfolding on_hashed_column process_hash next_hash
    on_both-checks hmac_key found plain =
        let hash = generate_hmac m key message in
        let w = waiting hash stored_column in
        let d = open_data envelope in
        let test = process_hash-waiting hmac_key hash stored_column d in
        after_hash_off hmac_key found ∙ elim (Bool-cases (is_equal m hmac_key hash d)) [
          | inl e ↦ rw e (
              on_hashed_column-passed is_envelope hmac_key w d (test ∙ ap some e)
              ∙ next_hash-none is_envelope hmac_key w d plain)
          | inr e ↦ rw e (on_hashed_column-refused is_envelope hmac_key w d (test ∙ ap some e))
        ]

    -- Where the message that was encrypted starts as a hash itself and no envelope follows, it comes
    -- out as it is, and the processor then panics on the next column, whatever that is.
    pub on_both-crashes :
        (hash next : Bytes) (other_key : Outcome Error Bytes)
        → is_envelope envelope ≡ true
        → open_data envelope ≡ message
        → extract_hash message ≡ some hash
        → is_envelope (drop (length hash) message) ≡ false
        → (p : Processor) × (on_both is_envelope (ok key) open_data idle stored_column
            ≡ answered p (record { column = message; is_marked = false }))
          × (on_hashed_column is_envelope other_key p next ≡ crashed)
    unfolding on_hashed_column process_hash next_hash is_equal generate_hmac
    on_both-crashes hash next other_key found opened starts bare =
        let mine = generate_hmac m key message in
        let w = waiting mine stored_column in
        let same : is_equal m (ok key) mine message ≡ true = bytes_eq_refl (m.mac key message) in
        (
          record { hash_data = some mine; matched_hash = none; raw_data = stored_column },
          after_hash_off (ok key) found
              ∙ rw opened (
                  on_hashed_column-passed is_envelope (ok key) w message
                    (process_hash-waiting (ok key) mine stored_column message ∙ ap some same)
                  ∙ next_hash-bare is_envelope (ok key) w message hash starts bare),
          refl,
        )
