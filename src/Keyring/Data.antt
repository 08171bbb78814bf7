-- ===== src/Keyring/Data.antt =====
-- The data of a key ring: `KeyRing`, `Key` and `KeyData` of keystore/v2/keystore/asn1/asn1.go,
-- with `KeyWithSeqnum`. A Go `int` is its 64-bit pattern, an instant is a number.
use acra.Base.{ℕ, ◌≡◌, false, Option, none, some, List, [], ◌∷◌, Bytes, ◌==◌, if◌then◌else◌, arith}
use acra.Keyring.State.{KeyState}

pub record KeyData : Type 0 where
  pub format : ℕ
  pub public_key : Bytes
  pub private_key : Bytes
  pub symmetric_key : Bytes

pub record Key : Type 0 where
  pub seqnum : ℕ
  pub state : KeyState
  pub valid_since : ℕ
  pub valid_until : ℕ
  pub key_data : List KeyData

pub record RingData : Type 0 where
  pub purpose : Bytes
  pub keys : List Key
  pub current : ℕ

-- the `int` -1
abbrev pub no_key : ℕ
no_key = 0xffffffffffffffff

abbrev pub themis_key_pair_format : ℕ
themis_key_pair_format = 1

abbrev pub themis_symmetric_key_format : ℕ
themis_symmetric_key_format = 3

-- `KeyWithSeqnum`: the search goes from the last key to the first.
unfoldable pub key_with_seqnum : ℕ → List Key → Option Key
key_with_seqnum s [] = none
key_with_seqnum s (k ∷ ks) = elim (key_with_seqnum s ks) [
  | some found ↦ some found
  | none ↦ if k.seqnum == s then some k else none
]

-- A write through the pointer that `KeyWithSeqnum` returns; nothing is written where it is nil.
unfoldable pub update_key : ℕ → (Key → Key) → List Key → List Key
unfolding key_with_seqnum
update_key s f [] = []
update_key s f (k ∷ ks) =
    let rest = update_key s f ks in
    elim (key_with_seqnum s ks) [
      | some found ↦ k ∷ rest
      | none ↦ if k.seqnum == s then f k ∷ ks else k ∷ ks
    ]

abbrev pub set_state : KeyState → Key → Key
set_state state k = record k { state = state }

abbrev pub set_data : List KeyData → Key → Key
set_data key_data k = record k { key_data = key_data }

pub key_with_seqnum-seqnum :
    (s : ℕ) (ks : List Key) {k : Key} → key_with_seqnum s ks ≡ some k → k.seqnum ≡ s
unfolding key_with_seqnum
key_with_seqnum-seqnum s [] h = cc
key_with_seqnum-seqnum s (j ∷ ks) {k} h = ground (arith, key_with_seqnum-seqnum s ks {k = k})

module _ (s : ℕ) (f : Key → Key) {k : Key} (keeps : (f k).seqnum ≡ s) where
  -- What is written is what the next search finds.
  pub key_with_seqnum-update_key :
      (ks : List Key)
      → key_with_seqnum s ks ≡ some k
      → key_with_seqnum s (update_key s f ks) ≡ some (f k)
  unfolding update_key
  key_with_seqnum-update_key [] h = cc
  key_with_seqnum-update_key (j ∷ ks) h = ground (arith, key_with_seqnum-update_key ks)

  -- A second write that undoes the first one restores the list.
  pub update_key-update_key :
      (g : Key → Key) (ks : List Key)
      → key_with_seqnum s ks ≡ some k
      → g (f k) ≡ k
      → update_key s g (update_key s f ks) ≡ ks
  unfolding update_key
  update_key-update_key g [] h e = cc
  update_key-update_key g (j ∷ ks) h e =
      ground (arith, update_key-update_key g ks, key_with_seqnum-update_key ks)

  -- Other keys are found as before.
  pub key_with_seqnum-update_key_ne :
      (t : ℕ) (ks : List Key)
      → key_with_seqnum s ks ≡ some k
      → (s == t) ≡ false
      → key_with_seqnum t (update_key s f ks) ≡ key_with_seqnum t ks
  unfolding update_key
  key_with_seqnum-update_key_ne t [] h ne = cc
  key_with_seqnum-update_key_ne t (j ∷ ks) h ne = ground (arith, key_with_seqnum-update_key_ne t ks)
