-- ===== src/Keyring/Sync/Stale.antt =====
-- A rename that fails between the two steps of `pushASNring` leaves the new file behind.
use acra.Base.{ℕ, ◌≡◌, ◌≢◌, ◌∙◌, none, some, arith, Bytes, inl, inr, bytes_eq_refl}
use acra.Base.Dict.{lookup, insert, lookup-insert}
use acra.Base.Outcome.{ok, Outcome-cases}
use acra.Keyring.Errors.{KeyError}
use acra.Keyring.Data.{RingData}
use acra.Keyring.Disk.{Disk, Faults}
use acra.Keyring.Sync.{Codec, Ring, new_path, push_asn_ring, push_new_ring_state}

stale-push :
    (f : Faults) (content path : Bytes) (disk : Disk) (stale : Bytes)
    → lookup (new_path path) disk ≡ some stale
    → ((push_asn_ring f content path disk).1 ≡ ok tt → ⊥)
      × ((push_asn_ring f content path disk).0 ≡ disk)
unfolding push_asn_ring
stale-push f content path disk stale at = ground arith

left_behind :
    (c : Codec) (f : Faults) (now : ℕ) (disk : Disk) (ring : Ring) (e : KeyError) (content : Bytes)
    → f.put ≡ none
    → f.rename ≡ some e
    → lookup (new_path ring.path) disk ≡ none
    → c.sign now ring.path ring.ring_data ≡ ok content
    → (push_new_ring_state c f now disk ring).disk ≡ insert (new_path ring.path) content disk
unfolding push_new_ring_state
left_behind c f now disk ring e content put rename free signed = ground arith

blocked :
    (c : Codec) (f : Faults) (now : ℕ) (disk : Disk) (ring : Ring) (stale : Bytes)
    → lookup (new_path ring.path) disk ≡ some stale
    → ((push_new_ring_state c f now disk ring).result ≡ ok tt → ⊥)
      × ((push_new_ring_state c f now disk ring).disk ≡ disk)
unfolding push_new_ring_state
blocked c f now disk ring stale at = elim (Outcome-cases (c.sign now ring.path ring.ring_data)) [
  | inl (content, e) ↦ ground (arith, stale-push f content ring.path disk stale at)
  | inr (inl (e', e)) ↦ ground arith
  | inr (inr e) ↦ ground arith
]

-- After a push whose `Put` succeeded and whose `Rename` failed, no later push to the same path
-- succeeds, whatever it writes and however the back end behaves, and none changes the disk.
pub rename_failure-blocks :
    (c : Codec) (f g : Faults) (now later : ℕ) (disk : Disk) (ring : Ring) (next : RingData)
    (e : KeyError) (content : Bytes)
    → f.put ≡ none
    → f.rename ≡ some e
    → lookup (new_path ring.path) disk ≡ none
    → c.sign now ring.path ring.ring_data ≡ ok content
    → ((push_new_ring_state c g later
          (push_new_ring_state c f now disk ring).disk
          (record ring { ring_data = next })).result
        ≢ ok tt)
      × ((push_new_ring_state c g later
            (push_new_ring_state c f now disk ring).disk
            (record ring { ring_data = next })).disk
          ≡ (push_new_ring_state c f now disk ring).disk)
rename_failure-blocks c f g now later disk ring next e content put rename free signed =
    rw (left_behind c f now disk ring e content put rename free signed) (
      blocked c g later (insert (new_path ring.path) content disk)
        (record ring { ring_data = next }) content
        (lookup-insert (new_path ring.path) (new_path ring.path) content disk
          ∙ rw (bytes_eq_refl (new_path ring.path))))
