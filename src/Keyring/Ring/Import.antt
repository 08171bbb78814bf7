-- ===== src/Keyring/Ring/Import.antt =====
-- `importASN1` refuses a ring that holds a key without data.
use acra.Base.{ℕ, ◌≡◌, ◌≢◌, List, [], ◌∷◌, ◌++◌, arith, Bytes, inl, inr}
use acra.Base.Outcome.{ok, Outcome-cases, >>=-eq_ok}
use acra.Keyring.Data.{Key, RingData}
use acra.Keyring.Disk.{Disk, Faults}
use acra.Keyring.Sync.{Codec, Ring}
use acra.Keyring.Ring.Access.{KeyEncryptor}
use acra.Keyring.Ring.NewKey.{copy_key, copy_keys, import_asn1}

module _ (enc : KeyEncryptor) (path : Bytes) where
  copy_key-erased : (k copy : Key) → k.key_data ≡ [] → copy_key enc path k ≡ ok copy → ⊥
  unfolding copy_key
  copy_key-erased k copy e h = ground arith

  copy_keys-erased :
      (front rest copies : List Key) (k : Key)
      → k.key_data ≡ []
      → copy_keys enc path (front ++ k ∷ rest) ≡ ok copies
      → ⊥
  unfolding copy_keys
  copy_keys-erased [] rest copies k e h =
      let (copy, first, later) = >>=-eq_ok (copy_key enc path k) _ h in
      copy_key-erased k copy e first
  copy_keys-erased (j ∷ front) rest copies k e h =
      let (copy, first, later) = >>=-eq_ok (copy_key enc path j) _ h in
      let (others, second, last) = >>=-eq_ok (copy_keys enc path (front ++ k ∷ rest)) _ later in
      copy_keys-erased front rest others k e second

-- A ring in which some key has no data, such as an exported ring with a destroyed key, is never
-- imported, and the attempt leaves the disk and the snapshot as they were.
pub import_asn1-erased :
    (enc : KeyEncryptor) (c : Codec) (f : Faults) (now : ℕ) (disk : Disk) (ring : Ring)
    (imported : RingData) (front rest : List Key) (k : Key)
    → imported.keys ≡ front ++ k ∷ rest
    → k.key_data ≡ []
    → ((import_asn1 enc c f now disk imported ring).result ≢ ok tt)
      × ((import_asn1 enc c f now disk imported ring).disk ≡ disk)
      × ((import_asn1 enc c f now disk imported ring).ring ≡ ring)
unfolding import_asn1
import_asn1-erased enc c f now disk ring imported front rest k split erased =
    elim (Outcome-cases (copy_keys enc ring.path imported.keys)) [
      | inl (copies, e) ↦
          absurd (copy_keys-erased enc ring.path front rest copies k erased (rw split at e))
      | inr (inl (e', e)) ↦ ground arith
      | inr (inr e) ↦ ground arith
    ]
