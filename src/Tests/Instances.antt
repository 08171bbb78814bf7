-- ===== src/Tests/Instances.antt =====
-- Concrete instances of the parameters of the model: a codec of rings by length prefixes, and toy
-- encryptions that mark what they encrypt.
use mathlib.Core.List.Perm
use acra.Base.{
  replicate, ℕ, zero, suc, ◌+◌, ◌≤◌, ◌≡◌, refl, sym, ap, ◌∙◌, List, [], ◌∷◌, ◌++◌, ◌==◌,
  if◌then◌else◌, Bytes, length, take, drop, take-append, drop-append, arith, ==_refl,
}
use acra.Base.Outcome.{Outcome, ok, err, ◌>>=◌}
use acra.Crypto.{Error, Cell, external}
use acra.Keyring.Errors.{KeyError, key_not_exist}
use acra.Keyring.Data.{Key, KeyData, RingData}
use acra.Keyring.Sync.{Codec, as_stored}
use acra.Keyring.Ring.Access.{KeyEncryptor}

abbrev encode_bytes : Bytes → Bytes → Bytes
encode_bytes xs rest = length xs ∷ xs ++ rest

abbrev decode_bytes : Bytes → Outcome KeyError (Bytes × Bytes)
decode_bytes [] = err key_not_exist
decode_bytes (n ∷ rest) = ok (take n rest, drop n rest)

decode_bytes-encode_bytes : (xs rest : Bytes) → decode_bytes (encode_bytes xs rest) ≡ ok (xs, rest)
decode_bytes-encode_bytes xs rest = rw (take-append xs rest, drop-append xs rest) refl

abbrev encode_data : KeyData → Bytes → Bytes
encode_data d rest =
    d.format
    ∷ encode_bytes d.public_key (encode_bytes d.private_key (encode_bytes d.symmetric_key rest))

abbrev decode_data : Bytes → Outcome KeyError (KeyData × Bytes)
decode_data [] = err key_not_exist
decode_data (format ∷ b0) = do
  (public_key, b1) ← decode_bytes b0
  (private_key, b2) ← decode_bytes b1
  (symmetric_key, b3) ← decode_bytes b2
  ok (
    record {
      format = format;
      public_key = public_key;
      private_key = private_key;
      symmetric_key = symmetric_key;
    },
    b3,
  )

decode_data-encode_data :
    (d : KeyData) (rest : Bytes) → decode_data (encode_data d rest) ≡ ok (d, rest)
decode_data-encode_data d rest =
    rw (take-append d.public_key _, drop-append d.public_key _)
      (rw (take-append d.private_key _, drop-append d.private_key _)
        (rw (take-append d.symmetric_key rest, drop-append d.symmetric_key rest) refl))

-- A list is its length and its elements.
module _ {A : Type 0} (encode : A → Bytes → Bytes)
    (decode : Bytes → Outcome KeyError (A × Bytes)) where
  abbrev encode_all : List A → Bytes → Bytes
  encode_all [] rest = rest
  encode_all (x ∷ xs) rest = encode x (encode_all xs rest)

  abbrev decode_all : ℕ → Bytes → Outcome KeyError (List A × Bytes)
  decode_all zero rest = ok ([], rest)
  decode_all (suc n) b0 = do (x, b1) ← decode b0; (xs, b2) ← decode_all n b1; ok (x ∷ xs, b2)

  decode_all-encode_all :
      ((x : A) (rest : Bytes) → decode (encode x rest) ≡ ok (x, rest))
      → (xs : List A) (rest : Bytes) → decode_all (length xs) (encode_all xs rest) ≡ ok (xs, rest)
  decode_all-encode_all law [] rest = refl
  decode_all-encode_all law (x ∷ xs) rest =
      rw (law x (encode_all xs rest)) (rw (decode_all-encode_all law xs rest) refl)

abbrev encode_key : Key → Bytes → Bytes
encode_key k rest =
    k.seqnum
    ∷ k.state
    ∷ k.valid_since
    ∷ k.valid_until
    ∷ length k.key_data
    ∷ encode_all encode_data decode_data k.key_data rest

abbrev decode_key : Bytes → Outcome KeyError (Key × Bytes)
decode_key (seqnum ∷ state ∷ valid_since ∷ valid_until ∷ n ∷ b0) = do
  (key_data, b1) ← decode_all encode_data decode_data n b0
  ok (
    record {
      seqnum = seqnum;
      state = state;
      valid_since = valid_since;
      valid_until = valid_until;
      key_data = key_data;
    },
    b1,
  )
decode_key _ = err key_not_exist

decode_key-encode_key : (k : Key) (rest : Bytes) → decode_key (encode_key k rest) ≡ ok (k, rest)
decode_key-encode_key k rest =
    rw (decode_all-encode_all encode_data decode_data decode_data-encode_data k.key_data rest) refl

abbrev encode_ring : RingData → Bytes
encode_ring r =
    r.current ∷ length r.keys ∷ encode_all encode_key decode_key r.keys (encode_bytes r.purpose [])

abbrev decode_ring : Bytes → Outcome KeyError RingData
decode_ring (current ∷ n ∷ b0) = do
  (keys, b1) ← decode_all encode_key decode_key n b0
  (purpose, b2) ← decode_bytes b1
  ok (record { purpose = purpose; keys = keys; current = current })
decode_ring _ = err key_not_exist

decode_ring-encode_ring : (r : RingData) → decode_ring (encode_ring r) ≡ ok r
decode_ring-encode_ring r =
    rw
      (decode_all-encode_all encode_key decode_key decode_key-encode_key r.keys
        (encode_bytes r.purpose []))
      (rw (take-append r.purpose []) refl)

abbrev verify_ring : Outcome KeyError RingData → Outcome KeyError RingData
verify_ring (ok r) = ok r
verify_ring _ = err key_not_exist

pub verify-encode :
    (r : RingData) (content : Bytes)
    → ◌≡◌ {A = Outcome KeyError Bytes} (ok (encode_ring r)) (ok content)
    → verify_ring (decode_ring content) ≡ ok r
verify-encode r content h =
    let e : encode_ring r ≡ content = cc in
    ap (λ (b : Bytes). verify_ring (decode_ring b)) (sym e)
    ∙ ap verify_ring (decode_ring-encode_ring r)

abbrev pub plain_codec : Codec
plain_codec = record {
  sign = λ now path r. ok (encode_ring (as_stored (λ ds. ds) r));
  verify = λ path content. verify_ring (decode_ring content);
  sorted = λ ds. ds;
  sorted-Perm = Perm.refl;
  verify-sign = λ now path r content h. verify-encode (as_stored (λ ds. ds) r) content h;
}

-- Encryption puts a mark in front.
abbrev decrypt_mark : Bytes → Outcome KeyError Bytes
decrypt_mark (b ∷ bs) = ok bs
decrypt_mark [] = err key_not_exist

pub decrypt-mark :
    (plain sealed : Bytes)
    → ◌≡◌ {A = Outcome KeyError Bytes} (ok (1 ∷ plain)) (ok sealed)
    → decrypt_mark sealed ≡ ok plain
decrypt-mark plain sealed h = let e : 1 ∷ plain ≡ sealed = cc in sym (ap decrypt_mark e)

pub mark-ne-nil : (plain : Bytes) → ◌≡◌ {A = Outcome KeyError Bytes} (ok (1 ∷ plain)) (ok []) → ⊥
mark-ne-nil plain h = cc

abbrev pub mark_encryptor : KeyEncryptor
mark_encryptor = record {
  encrypt = λ context plain. ok (1 ∷ plain);
  decrypt = λ context sealed. decrypt_mark sealed;
  decrypt-encrypt = λ context plain sealed h. decrypt-mark plain sealed h;
  encrypt-ne-nil = λ context plain h. mark-ne-nil plain h;
}

-- Sealing puts the length of the key in front, and only a key of that length opens it.
abbrev unseal_length : Bytes → Bytes → Outcome Error Bytes
unseal_length key (b ∷ bs) = if b == length key then ok bs else err (external 0)
unseal_length key [] = err (external 0)

pub length-replicate : (n b : ℕ) → length (replicate n b) ≡ n
length-replicate zero b = refl
length-replicate (suc n) b = omega (arith, length-replicate n b)

pub sealed_is :
    (key plain sealed : Bytes)
    → ◌≡◌ {A = Outcome Error Bytes} (ok (length key ∷ plain)) (ok sealed)
    → length key ∷ plain ≡ sealed
sealed_is key plain sealed h = cc

pub unseal-length :
    (key plain sealed : Bytes)
    → ◌≡◌ {A = Outcome Error Bytes} (ok (length key ∷ plain)) (ok sealed)
    → unseal_length key sealed ≡ ok plain
unseal-length key plain sealed h =
    sym (ap (unseal_length key) (sealed_is key plain sealed h)) ∙ rw (==_refl (length key)) refl

pub length-sealed :
    (key plain sealed : Bytes)
    → ◌≡◌ {A = Outcome Error Bytes} (ok (length key ∷ plain)) (ok sealed)
    → length sealed ≤ length plain + 256
length-sealed key plain sealed h = omega (arith, ap (length {A = ℕ}) (sealed_is key plain sealed h))

abbrev pub length_cell : Cell
length_cell = record {
  seal = λ seed key plain context. ok (length key ∷ plain);
  unseal = λ key sealed context. unseal_length key sealed;
  unseal-seal = λ seed key plain context sealed h. unseal-length key plain sealed h;
  length-seal = λ seed key plain context sealed h. length-sealed key plain sealed h;
  sha256 = λ message. replicate 32 (length message);
  length-sha256 = λ message. length-replicate 32 (length message);
}
