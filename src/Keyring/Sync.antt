-- ===== src/Keyring/Sync.antt =====
-- Reading and writing key rings: keystore/v2/keystore/filesystem/keyStoreLoad.go.
pub mod Durable
pub mod Write
pub mod Stale
use acra.Base.{
  ℕ, ◌≡◌, Bool, true, false, Option, none, some, List, [], ◌∷◌, ◌++◌, Bytes, map, ◌/◌, ◌*◌,
}
use mathlib.Core.List.{Perm}
use acra.Base.Outcome.{Outcome, ok, err, panic, ◌>>=◌}
use acra.Keyring.Errors.{KeyError, path_not_exist}
use acra.Keyring.Data.{Key, KeyData, RingData}
use acra.Keyring.Disk.{Disk, Faults, get_file, put_file, rename_file}
use acra.Keyring.Tx.{Tx, Applied, applied, rejected, crashed, apply_pending}

-- The encoding of instants as UTC times, from nanoseconds, drops the parts of a second.
abbrev pub whole_seconds : ℕ → ℕ
whole_seconds t = t / 1000000000 * 1000000000

-- A ring as the encoding gives it back: whole seconds, and the data of a key, which is a set, sorted.
abbrev pub as_stored_key : (List KeyData → List KeyData) → Key → Key
as_stored_key sorted k = record k {
  valid_since = whole_seconds k.valid_since;
  valid_until = whole_seconds k.valid_until;
  key_data = sorted k.key_data;
}

abbrev pub as_stored : (List KeyData → List KeyData) → RingData → RingData
as_stored sorted r = record r { keys = map (as_stored_key sorted) r.keys }

-- `signKeyRing` at an instant and a path, and `verifyKeyRing`: what the notary and the ASN.1 library
-- do between them. A ring that was signed verifies at its path, and is then as the encoding gives it
-- back. Signed bytes that are no ring verify as a nil ring, which the next use dereferences: this is
-- a panic of `verify`.
pub record Codec : Type 0 where
  pub sign : ℕ → Bytes → RingData → Outcome KeyError Bytes
  pub verify : Bytes → Bytes → Outcome KeyError RingData
  -- the order of the encodings of the elements of a set
  pub sorted : List KeyData → List KeyData
  pub sorted-Perm : (ds : List KeyData) → Perm (sorted ds) ds
  pub verify-sign :
      (now : ℕ) (path : Bytes) (r : RingData) (content : Bytes)
      → sign now path r ≡ ok content
      → verify path content ≡ ok (as_stored sorted r)

pub record Ring : Type 0 where
  pub path : Bytes
  pub ring_data : RingData
  pub tx_log : List Tx

-- a snapshot with no transaction pending
abbrev pub idle : Bytes → RingData → Ring
idle path ring_data = record { path = path; ring_data = ring_data; tx_log = [] }

-- what a run leaves behind
pub record Run : Type 0 where
  pub disk : Disk
  pub ring : Ring
  pub result : Outcome KeyError (Unit {0})

-- ".keyring" and ".new"
abbrev pub keyring_suffix : Bytes
keyring_suffix = b'.' ∷ b'k' ∷ b'e' ∷ b'y' ∷ b'r' ∷ b'i' ∷ b'n' ∷ b'g' ∷ []

abbrev pub new_suffix : Bytes
new_suffix = b'.' ∷ b'n' ∷ b'e' ∷ b'w' ∷ []

abbrev pub current_path : Bytes → Bytes
current_path path = path ++ keyring_suffix

abbrev pub new_path : Bytes → Bytes
new_path path = current_path path ++ new_suffix

-- The deferred unlock: its error counts only where there is no other.
abbrev pub unlocked : Faults → Run → Run
unlocked f r = elim r.result [
  | ok _ ↦ elim f.unlock [ none ↦ r | some e ↦ record r { result = err e } ]
  | err e ↦ r
  | panic ↦ r
]

-- `pushASNring`: the disk that is left behind, and the result.
unfoldable pub push_asn_ring : Faults → Bytes → Bytes → Disk → Disk × Outcome KeyError (Unit {0})
unfolding put_file rename_file
push_asn_ring f content path disk = elim (put_file f (new_path path) content disk) [
  | err e ↦ (disk, err e)
  | panic ↦ (disk, panic)
  | ok disk1 ↦ elim (rename_file f (new_path path) (current_path path) disk1) [
    | err e ↦ (disk1, err e)
    | panic ↦ (disk1, panic)
    | ok disk2 ↦ (disk2, ok tt)
  ]
]

module _ (c : Codec) where
  open c use {sign, verify}

  unfoldable pub pull_ring_updates : Faults → Disk → Ring → Outcome KeyError Ring
  unfolding get_file
  pull_ring_updates f disk ring = do
    content ← get_file f (current_path ring.path) disk
    asn_data ← verify ring.path content
    ok (record ring { ring_data = asn_data })

  unfoldable pub push_new_ring_state : Faults → ℕ → Disk → Ring → Run
  unfolding push_asn_ring
  push_new_ring_state f now disk ring = elim (sign now ring.path ring.ring_data) [
    | err e ↦ record { disk = disk; ring = ring; result = err e }
    | panic ↦ record { disk = disk; ring = ring; result = panic }
    | ok content ↦
        let (disk', result) = push_asn_ring f content ring.path disk in
        record { disk = disk'; ring = ring; result = result }
  ]

  -- `commitTX` behind a push that succeeded
  unfoldable pub commit_tx : Run → Run
  commit_tx r = elim r.result [
    | ok _ ↦ record r { ring = record r.ring { tx_log = [] } }
    | err e ↦ r
    | panic ↦ r
  ]

  unfoldable pub push_applied : Faults → ℕ → Disk → Ring → Applied → Run
  unfolding push_new_ring_state commit_tx
  push_applied f now disk ring (applied log after) =
      commit_tx (push_new_ring_state f now disk (record ring { ring_data = after; tx_log = log }))
  push_applied f now disk ring (rejected e log after) = record {
    disk = disk;
    ring = record ring { ring_data = after; tx_log = log };
    result = err e;
  }
  push_applied f now disk ring crashed = record { disk = disk; ring = ring; result = panic }

  unfoldable pub write_locked : Faults → ℕ → Disk → Ring → Run
  unfolding pull_ring_updates push_applied
  write_locked f now disk ring = elim (pull_ring_updates f disk ring) [
    | err e ↦ record { disk = disk; ring = ring; result = err e }
    | panic ↦ record { disk = disk; ring = ring; result = panic }
    | ok ring1 ↦ push_applied f now disk ring1 (apply_pending ring1.tx_log ring1.ring_data)
  ]

  unfoldable pub write_key_ring : Faults → ℕ → Disk → Ring → Run
  unfolding write_locked
  write_key_ring f now disk ring = elim f.lock [
    | some e ↦ record { disk = disk; ring = ring; result = err e }
    | none ↦ unlocked f (write_locked f now disk ring)
  ]

  read_locked : Faults → Disk → Ring → Run
  unfolding pull_ring_updates
  read_locked f disk ring = elim (pull_ring_updates f disk ring) [
    | err e ↦ record { disk = disk; ring = ring; result = err e }
    | panic ↦ record { disk = disk; ring = ring; result = panic }
    | ok ring1 ↦ record { disk = disk; ring = ring1; result = ok tt }
  ]

  unfoldable pub read_key_ring : Faults → Disk → Ring → Run
  unfolding read_locked
  read_key_ring f disk ring = elim f.lock [
    | some e ↦ record { disk = disk; ring = ring; result = err e }
    | none ↦ unlocked f (read_locked f disk ring)
  ]

  -- A ring that is not there is created.
  open_locked : Faults → ℕ → Disk → Ring → Run
  unfolding pull_ring_updates push_new_ring_state
  open_locked f now disk ring = elim (pull_ring_updates f disk ring) [
    | err path_not_exist ↦ push_new_ring_state f now disk ring
    | err e ↦ record { disk = disk; ring = ring; result = err e }
    | panic ↦ record { disk = disk; ring = ring; result = panic }
    | ok ring1 ↦ record { disk = disk; ring = ring1; result = ok tt }
  ]

  unfoldable pub open_key_ring : Faults → ℕ → Disk → Ring → Run
  unfolding open_locked
  open_key_ring f now disk ring = elim f.lock [
    | some e ↦ record { disk = disk; ring = ring; result = err e }
    | none ↦ unlocked f (open_locked f now disk ring)
  ]

  unfoldable pub sync_key_ring : Faults → ℕ → Disk → Ring → Run
  unfolding write_key_ring read_key_ring
  sync_key_ring f now disk ring = elim ring.tx_log [
    | [] ↦ read_key_ring f disk ring
    | tx ∷ rest ↦ write_key_ring f now disk ring
  ]
