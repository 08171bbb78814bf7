-- ===== src/Tests/RingInputs.antt =====
-- Key rings at concrete inputs: a ring of two keys on a disk.
use acra.Base.{ℕ, ◌≡◌, ◌≢◌, refl, some, List, [], ◌∷◌, ◌⊎◌, Bytes, text, bytes_eq}
use acra.Base.Dict.{lookup, insert}
use acra.Base.Outcome.{ok}
use acra.Keyring.Errors.{key_not_exist}
use acra.Keyring.State.{KeyState, pre_active, active, deactivated, destroyed, transition_valid}
use acra.Keyring.Data.{
  Key, KeyData, RingData, key_with_seqnum, themis_symmetric_key_format, update_key,
}
use acra.Keyring.Disk.{Disk, Faults, no_faults}
use acra.Keyring.Tx.{change_key_state, destroy_key_data, apply, apply_pending, apply_from}
use acra.Keyring.Tx.Atomic.{AllOrNothing, apply_pending-AllOrNothing}
use acra.Keyring.Sync.{Ring, idle, current_path, push_new_ring_state, write_key_ring, sync_key_ring}
use acra.Keyring.Sync.Durable.{persisted, IsStored}
use acra.Keyring.Sync.Write.{IsCommitted, write_key_ring-IsStored, write_key_ring-IsCommitted}
use acra.Keyring.Sync.Stale.{rename_failure-blocks}
use acra.Keyring.Ring.{destroy_key, add_new_key}
use acra.Keyring.Ring.Access.{symmetric_key, find_format}
use acra.Keyring.Ring.Advance.{Advances}
use acra.Keyring.Ring.Safe.{change, perform, operate, start, and_then, Steps-Advances}
use acra.Keyring.Ring.Keep.{destroy_key-erased}
use acra.Keyring.Ring.NewKey.{KeyDescription, add_key}
use acra.Keyring.Ring.Secrets.{symmetric_key-add_key}
use acra.Tests.Instances.{plain_codec, mark_encryptor}

abbrev here_path : Bytes
here_path = text "ring"

abbrev secret : KeyData
secret = record {
  format = themis_symmetric_key_format;
  public_key = [];
  private_key = [];
  symmetric_key = 7 ∷ 8 ∷ [];
}

abbrev key_at : ℕ → KeyState → List KeyData → Key
key_at seqnum state key_data = record {
  seqnum = seqnum;
  state = state;
  valid_since = 10000000000;
  valid_until = 20000000000;
  key_data = key_data;
}

abbrev two_keys : RingData
two_keys = record {
  purpose = [];
  keys = key_at 1 deactivated (secret ∷ []) ∷ key_at 2 pre_active (secret ∷ []) ∷ [];
  current = 1;
}

abbrev stored : Disk
stored =
    insert (current_path here_path)
      (elim (plain_codec.sign 0 here_path two_keys) [ ok b ↦ b | _ ↦ [] ]) []

abbrev no_rename : Faults
no_rename = record no_faults { rename = some key_not_exist }

abbrev activate : Ring
activate = record {
  path = here_path;
  ring_data = two_keys;
  tx_log = change_key_state 2 pre_active active ∷ [];
}

persisted-stored : persisted plain_codec stored here_path ≡ ok two_keys
unfolding lookup insert bytes_eq
persisted-stored = refl

-- The second transaction is refused.
apply_pending-AllOrNothing_example :
    AllOrNothing two_keys (
      apply_pending
        (destroy_key_data 1 [] ∷ change_key_state 3 deactivated destroyed ∷ [])
        two_keys)
apply_pending-AllOrNothing_example =
    apply_pending-AllOrNothing
      (destroy_key_data 1 [] ∷ change_key_state 3 deactivated destroyed ∷ []) two_keys

write_key_ring-IsStored_example :
    (persisted plain_codec (write_key_ring plain_codec no_rename 5 stored activate).disk here_path
      ≡ persisted plain_codec stored here_path)
    ⊎ IsStored plain_codec stored activate
        (write_key_ring plain_codec no_rename 5 stored activate).disk
write_key_ring-IsStored_example = write_key_ring-IsStored plain_codec no_rename 5 stored activate

write_key_ring-IsCommitted_example :
    IsCommitted plain_codec stored activate (write_key_ring plain_codec no_faults 5 stored activate)
unfolding write_key_ring lookup insert bytes_eq apply_from apply key_with_seqnum
write_key_ring-IsCommitted_example =
    write_key_ring-IsCommitted plain_codec no_faults 5 stored activate refl

-- The second run finds the file that the first one left.
rename_failure-blocks_example :
    ((push_new_ring_state plain_codec no_faults 6
        (push_new_ring_state plain_codec no_rename 5 stored (idle here_path two_keys)).disk
        (idle here_path two_keys)).result
      ≢ ok tt)
    × ((push_new_ring_state plain_codec no_faults 6
          (push_new_ring_state plain_codec no_rename 5 stored (idle here_path two_keys)).disk
          (idle here_path two_keys)).disk
        ≡ (push_new_ring_state plain_codec no_rename 5 stored (idle here_path two_keys)).disk)
unfolding lookup insert bytes_eq
rename_failure-blocks_example =
    rename_failure-blocks plain_codec no_rename no_faults 5 6 stored (idle here_path two_keys)
      two_keys key_not_exist (elim (plain_codec.sign 5 here_path two_keys) [ ok b ↦ b | _ ↦ [] ])
      refl refl refl refl

-- A process activates the second key, then one with a stale snapshot destroys the first.
abbrev after_one : Disk
after_one =
    (perform plain_codec no_faults 5 stored (idle here_path two_keys) (change 2 active)).disk

Steps-Advances_example :
    (after : RingData) × (persisted plain_codec
        (perform plain_codec no_rename 6 after_one
          (idle here_path two_keys)
          (change 1 destroyed)).disk
        here_path
      ≡ ok after)
    × Advances two_keys after
unfolding lookup insert bytes_eq
Steps-Advances_example =
    Steps-Advances plain_codec here_path two_keys {disk = stored}
      {disk' = (perform plain_codec no_rename 6 after_one (idle here_path two_keys)
        (change 1 destroyed)).disk}
      refl
      (and_then {disk1 = after_one}
        (and_then {disk1 = stored} start (operate no_faults 5 two_keys (change 2 active) refl))
        (operate no_rename 6 two_keys (change 1 destroyed) refl))

destroy_key-erased_example :
    (after : RingData) × (k : Key) × (persisted plain_codec
        (destroy_key plain_codec no_faults 5 stored 1 (idle here_path two_keys)).disk
        here_path
      ≡ ok after)
    × (key_with_seqnum 1 after.keys ≡ some k)
    × (k.state ≡ destroyed)
    × (k.key_data ≡ [])
unfolding destroy_key write_key_ring lookup insert bytes_eq apply_from apply key_with_seqnum
    transition_valid sync_key_ring update_key
destroy_key-erased_example =
    destroy_key-erased plain_codec no_faults 5 stored here_path two_keys 1 refl

abbrev described : KeyDescription
described = record { valid_since = 1000000000; valid_until = 9000000000; key_data = secret ∷ [] }

symmetric_key-add_key_example :
    symmetric_key mark_encryptor
      (add_key mark_encryptor plain_codec no_faults 5 stored described (idle here_path two_keys)).1
      themis_symmetric_key_format
      (add_key mark_encryptor plain_codec no_faults 5 stored described
        (idle here_path two_keys)).0.ring
    ≡ ok (7 ∷ 8 ∷ [])
unfolding add_key write_key_ring lookup insert bytes_eq apply_from apply key_with_seqnum find_format
    add_new_key sync_key_ring
symmetric_key-add_key_example =
    symmetric_key-add_key mark_encryptor plain_codec no_faults 5 stored here_path two_keys described
      secret refl refl
