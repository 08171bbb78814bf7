-- ===== src/Keyring/Sync/Durable.antt =====
-- What a write of a key ring leaves on the disk.
use acra.Base.{
  ℕ, ◌<◌, ◌≡◌, ap, false, none, some, List, ◌++◌, Bytes, arith, length, length-append, bytes_eq,
  bytes_eq_iff, bytes_eq_refl, Bool-cases, inl, inr,
}
use acra.Base.Dict
use acra.Base.Dict.{Dict, lookup, insert, lookup-insert, lookup-delete}
use acra.Base.Outcome.{Outcome, ok, err, Outcome-cases}
use acra.Keyring.Errors.{KeyError, path_not_exist}
use acra.Keyring.Data.{RingData}
use acra.Keyring.Disk.{Disk, Faults}
use acra.Keyring.Tx.{Tx, applied, apply_pending}
use acra.Keyring.Sync.{
  Codec, as_stored, Ring, current_path, new_path, new_suffix, push_asn_ring, pull_ring_updates,
  push_new_ring_state,
}

length_ne : (xs ys : Bytes) → 0 < length ys → xs ++ ys ≡ xs → ⊥
length_ne xs ys h e = omega (arith, length-append xs ys, ap (length {A = ℕ}) e)

new_ne_current : (path : Bytes) → bytes_eq (new_path path) (current_path path) ≡ false
new_ne_current path = elim (Bool-cases (bytes_eq (new_path path) (current_path path))) [
  | inl e ↦ absurd (length_ne (current_path path) new_suffix (omega arith) ((bytes_eq_iff _ _).0 e))
  | inr e ↦ e
]

-- The ring that a reader finds at a path.
abbrev pub persisted : Codec → Disk → Bytes → Outcome KeyError RingData
persisted c disk path = elim (lookup (current_path path) disk) [
  | none ↦ err path_not_exist
  | some content ↦ c.verify path content
]

module _ (f : Faults) (content path : Bytes) (disk : Disk) where
  push_asn_ring-ok :
      (push_asn_ring f content path disk).1 ≡ ok tt
      → lookup (current_path path) (push_asn_ring f content path disk).0 ≡ some content
  unfolding push_asn_ring
  push_asn_ring-ok h = ground (
    arith,
    new_ne_current path,
    bytes_eq_refl (new_path path),
    bytes_eq_refl (current_path path),
    lookup-insert (new_path path) (new_path path) content disk,
    lookup-insert (current_path path) (current_path path) content
        (Dict.delete (new_path path) (insert (new_path path) content disk)),
  )

  push_asn_ring-err :
      ((push_asn_ring f content path disk).1 ≡ ok tt → ⊥)
      → lookup (current_path path) (push_asn_ring f content path disk).0
        ≡ lookup (current_path path) disk
  unfolding push_asn_ring
  push_asn_ring-err h =
      ground
        (arith, new_ne_current path, lookup-insert (new_path path) (current_path path) content disk)

module _ (c : Codec) (f : Faults) (now : ℕ) (disk : Disk) where
  pub pull-persisted :
      (ring ring1 : Ring)
      → pull_ring_updates c f disk ring ≡ ok ring1
      → (persisted c disk ring.path ≡ ok ring1.ring_data)
        × (ring1 ≡ record ring { ring_data = ring1.ring_data })
  unfolding pull_ring_updates
  pull-persisted ring ring1 h = ground arith

  pub push-ok :
      (ring : Ring)
      → (push_new_ring_state c f now disk ring).result ≡ ok tt
      → persisted c (push_new_ring_state c f now disk ring).disk ring.path
        ≡ ok (as_stored c.sorted ring.ring_data)
  unfolding push_new_ring_state
  push-ok ring h = elim (Outcome-cases (c.sign now ring.path ring.ring_data)) [
    | inl (content, e) ↦ ground (
      arith,
      push_asn_ring-ok f content ring.path disk,
      c.verify-sign now ring.path ring.ring_data content,
    )
    | inr (inl (e', e)) ↦ absurd (ground arith)
    | inr (inr e) ↦ absurd (ground arith)
  ]

  pub push-err :
      (ring : Ring)
      → ((push_new_ring_state c f now disk ring).result ≡ ok tt → ⊥)
      → lookup (current_path ring.path) (push_new_ring_state c f now disk ring).disk
        ≡ lookup (current_path ring.path) disk
  unfolding push_new_ring_state
  push-err ring h = elim (Outcome-cases (c.sign now ring.path ring.ring_data)) [
    | inl (content, e) ↦ ground (arith, push_asn_ring-err f content ring.path disk)
    | inr (inl (e', e)) ↦ ground arith
    | inr (inr e) ↦ ground arith
  ]

  pub push-ring : (ring : Ring) → (push_new_ring_state c f now disk ring).ring ≡ ring
  unfolding push_new_ring_state
  push-ring ring = ground arith

-- A write that took effect: it started from the ring on the disk, whatever the snapshot held, and
-- the disk then holds that ring with every pending transaction applied, as the encoding gives it
-- back.
pub record IsStored (c : Codec) (disk : Disk) (ring : Ring) (disk' : Disk) : Type 0 where
  pub before : RingData
  pub after : RingData
  pub log : List Tx
  pub read : persisted c disk ring.path ≡ ok before
  pub applies : apply_pending ring.tx_log before ≡ applied log after
  pub written : persisted c disk' ring.path ≡ ok (as_stored c.sorted after)
