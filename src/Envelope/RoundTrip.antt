-- ===== src/Envelope/RoundTrip.antt =====
-- A serialized container is read back, and `Process` opens what `EncryptWithHandler` made.
use acra.Base.{
  ℕ, ◌+◌, ◌%◌, ◌<◌, ◌≤◌, ◌≡◌, refl, sym, ap, ◌∙◌, true, false, List, [], ◌∷◌, ◌++◌, Bytes, leb,
  lt→leb, length, take, arith, take-append, length-append, append-nil, bytes_eq_refl, inl, inr,
}
use acra.Base.Words.{le_bytes, le_value-le_bytes}
use acra.Base.Outcome.{Outcome, ok, err, ok_injective, Outcome-cases, >>=-eq_ok}
use acra.Crypto.{Error, Cell, invalid_acrablock}
use acra.Acrablock.{extract_acra_block, new_acra_block, create_acra_block, decrypt}
use acra.Acrablock.RoundTrip.{decrypt-create, extract-create, AllPassed}
use acra.Envelope.Handlers.{decrypt_block, decrypted, encrypt_block, acra_block_handler}
use acra.Envelope.{
  Handler, Registry, get_handler_by_id, tag_begin, serialize, container_length,
  get_serialized_length, validate_serialized, get_envelope_id, deserialize, extract_serialized,
  match_data_signature, process, is_encrypted, encrypt_with_handler, acra_block_id,
}

abbrev container : ℕ → ℕ → Bytes → Bytes
container n id tail = tag_begin ++ (le_bytes 8 n ++ id ∷ tail)

container_length-container :
    (n id : ℕ) (tail : Bytes) → n < 0x8000000000000000 → container_length (container n id tail) ≡ n
unfolding container_length
container_length-container n id tail h = le_value-le_bytes 8 n (omega arith)

get_serialized_length-is :
    (b : Bytes) (n : ℕ)
    → container_length b ≡ 12 + n
    → 12 + n ≤ length b
    → length b < 0x8000000000000000
    → get_serialized_length b ≡ ok n
unfolding get_serialized_length
get_serialized_length-is b n stored fits small =
    let e : (container_length b + 0xfffffffffffffff4) % 0x10000000000000000 ≡ n = omega arith in
    ground arith

module _ (registry : Registry) (id : ℕ) (h : Handler)
    (found : get_handler_by_id id registry ≡ ok h) where
  validate-container :
      (n x : ℕ) (tail : Bytes) → validate_serialized registry (container n id (x ∷ tail)) ≡ ok id
  unfolding validate_serialized
  validate-container n x tail =
      let long : leb (length (container n id (x ∷ tail))) 12 ≡ false =
        lt→leb (length (container n id (x ∷ tail))) 12 (omega arith) in
      rw long (rw (bytes_eq_refl tag_begin) (rw found refl))

  envelope-container :
      (n x : ℕ) (tail : Bytes)
      → get_envelope_id registry (container n id (x ∷ tail)) ≡ ok (false, id)
  unfolding get_envelope_id
  envelope-container n x tail = rw (validate-container n x tail, get_envelope_id) refl

  deserialize-container :
      (n x : ℕ) (tail : Bytes)
      → 12 + n ≤ length (container (12 + n) id (x ∷ tail))
      → length (container (12 + n) id (x ∷ tail)) < 0x8000000000000000
      → deserialize registry (container (12 + n) id (x ∷ tail)) ≡ ok (take n (x ∷ tail), id)
  unfolding deserialize
  deserialize-container n x tail fits small =
      let b : Bytes = container (12 + n) id (x ∷ tail) in
      let size : get_serialized_length b ≡ ok n =
        get_serialized_length-is b n
          (container_length-container (12 + n) id (x ∷ tail) (omega arith)) fits small in
      rw (envelope-container (12 + n) x tail, deserialize) (rw size refl)

  extract-container :
      (b : Bytes)
      → validate_serialized registry b ≡ ok id
      → extract_serialized registry b ≡ ok (container_length b, b)
  unfolding extract_serialized
  extract-container b v = rw (v, extract_serialized) refl

  -- `DeserializeEncryptedData` and `ExtractSerializedContainer` read back what
  -- `SerializeEncryptedData` wrote under the ID of a registered handler, whatever follows, if all is shorter than 2^63.
  pub deserialize-serialize :
      (encrypted s rest : Bytes)
      → serialize encrypted id ≡ ok s
      → length (s ++ rest) < 0x8000000000000000
      → (deserialize registry (s ++ rest) ≡ ok (encrypted, id))
        × (extract_serialized registry (s ++ rest) ≡ ok (length s, s ++ rest))
  unfolding serialize
  deserialize-serialize [] s rest e small = absurd (ground arith)
  deserialize-serialize (x ∷ xs) s rest e small =
      let n = length (x ∷ xs) in
      let b : Bytes = container (12 + n) id (x ∷ (xs ++ rest)) in
      let is_s : container (12 + n) id (x ∷ xs) ≡ s = ok_injective e in
      let whole : s ++ rest ≡ b = ap (λ (t : Bytes). t ++ rest) (sym is_s) in
      let size : length s ≡ 12 + n = omega (arith, ap (length {A = ℕ}) is_s) in
      let total = length-append s rest in
      let same : length (s ++ rest) ≡ length b = ap (length {A = ℕ}) whole in
      let stored : container_length b ≡ 12 + n =
        container_length-container (12 + n) id (x ∷ (xs ++ rest)) (omega arith) in
      rw whole (
        deserialize-container n x (xs ++ rest) (omega arith) (omega arith)
            ∙ ap (λ (t : Bytes). ok (t, id)) (take-append (x ∷ xs) rest),
        extract-container b (validate-container (12 + n) x (xs ++ rest))
            ∙ ap (λ (k : ℕ). ok (k, b)) (stored ∙ sym size),
      )

  pub envelope-serialize :
      (encrypted s : Bytes)
      → serialize encrypted id ≡ ok s
      → (get_envelope_id registry s ≡ ok (false, id)) × (length s ≡ 12 + length encrypted)
  unfolding serialize
  envelope-serialize [] s e = absurd (ground arith)
  envelope-serialize (x ∷ xs) s e =
      let is_s : container (12 + length (x ∷ xs)) id (x ∷ xs) ≡ s = ok_injective e in
      (
        ap (get_envelope_id registry) (sym is_s) ∙ envelope-container (12 + length (x ∷ xs)) x xs,
        omega (arith, ap (length {A = ℕ}) is_s),
      )

-- For a handler that opens what it encrypted, `Process` opens what `EncryptWithHandler` made.
process-encrypt :
    (registry : Registry) (h : Handler) (plain s : Bytes)
    → get_handler_by_id h.id registry ≡ ok h
    → ((inner : Bytes)
        → h.encrypt plain ≡ ok inner
        → (length inner < 0x8000000000000000)
        → (h.matches inner ≡ ok true) × (h.open_container inner ≡ ok plain))
    → is_encrypted registry h plain ≡ ok false
    → encrypt_with_handler registry h plain ≡ ok s
    → length s < 0x8000000000000000
    → process registry s ≡ ok plain
unfolding encrypt_with_handler process
process-encrypt registry h plain s found opens fresh made small =
    let (inner, e1, e2) =
      >>=-eq_ok (h.encrypt plain) _ (rw (fresh, encrypt_with_handler) at made) in
    let (envelope, size) = envelope-serialize registry h.id h found inner s e2 in
    let bound : length (s ++ []) < 0x8000000000000000 = rw (append-nil s) small in
    let read : deserialize registry s ≡ ok (inner, h.id) =
      ap (deserialize registry) (sym (append-nil s))
      ∙ (deserialize-serialize registry h.id h found inner s [] e2 bound).0 in
    let (is_match, opened) = opens inner e1 (omega arith) in
    rw (envelope, process) (rw found (rw read (rw is_match opened)))

module _ (c : Cell) (random : Outcome Error Bytes) (seed1 seed2 : ℕ) (key : Bytes)
    (before after : List Bytes) where
  abbrev handler : Handler
  handler = acra_block_handler c random seed1 seed2 (ok (before ++ key ∷ after)) (ok key)

  block-opens :
      (plain inner : Bytes)
      → AllPassed c key [] before
      → handler.matches plain ≡ ok false
      → handler.encrypt plain ≡ ok inner
      → length inner < 0x8000000000000000
      → (handler.matches inner ≡ ok true) × (handler.open_container inner ≡ ok plain)
  unfolding encrypt_block decrypt_block new_acra_block
  block-opens plain inner passed fresh made small =
      elim (Outcome-cases (extract_acra_block plain)) [
        | inl (block, e) ↦ absurd (ground arith)
        | inr (inr e) ↦ absurd (ground arith)
        | inr (inl (e', e)) ↦
            let created : create_acra_block c random seed1 seed2 plain key [] ≡ ok inner =
              rw (e, encrypt_block) at made in
            let bound : length (inner ++ []) < 0x8000000000000000 = rw (append-nil inner) small in
            let read : extract_acra_block inner ≡ ok (length inner, inner) =
              ap extract_acra_block (sym (append-nil inner))
              ∙ extract-create c seed1 seed2 random plain key [] inner [] created bound in
            let opened : decrypt c inner (before ++ key ∷ after) [] ≡ ok plain =
              decrypt-create c seed1 seed2 random plain key [] inner before after created passed in
            (rw read refl, rw (read, decrypt_block) (ap decrypted opened))
      ]

  -- `Process` opens a value that `EncryptWithHandler` encrypted into an AcraBlock, where the handler
  -- is registered, the value was in no container before, the container is shorter than 2^63, and
  -- the key is among the keys of the client, behind keys that `Decrypt` passes over.
  pub process-encrypt_with_handler :
      (registry : Registry) (plain s : Bytes)
      → get_handler_by_id acra_block_id registry ≡ ok handler
      → AllPassed c key [] before
      → extract_acra_block plain ≡ err invalid_acrablock
      → match_data_signature registry plain ≡ ok false
      → encrypt_with_handler registry handler plain ≡ ok s
      → length s < 0x8000000000000000
      → process registry s ≡ ok plain
  unfolding is_encrypted
  process-encrypt_with_handler registry plain s found passed fresh outer made small =
      let no_block : handler.matches plain ≡ ok false = rw fresh refl in
      process-encrypt registry handler plain s found
        (λ inner e bound. block-opens plain inner passed no_block e bound)
        (rw no_block (rw outer refl)) made small
