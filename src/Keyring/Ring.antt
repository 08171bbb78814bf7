-- ===== src/Keyring/Ring.antt =====
-- The operations of a key ring: keystore/v2/keystore/filesystem/keyRing.go and key.go. An operation
-- that changes the ring takes the disk, the snapshot and the failures of its run.
pub mod Access
pub mod NewKey
pub mod Advance
pub mod Safe
pub mod Keep
pub mod Secrets
pub mod Import
use acra.Base.{
  ℕ, zero, suc, ◌+◌, ◌%◌, Bool, true, false, not, Option, none, some, List, [], ◌∷◌, ◌++◌, ◌==◌,
  Bytes, if◌then◌else◌, map,
}
use acra.Base.Outcome.{Outcome, ok, err, panic, ◌>>=◌}
use acra.Keyring.Errors.{KeyError, key_not_exist, invalid_state, no_current_key}
use acra.Keyring.State.{KeyState, destroyed, transition_valid}
use acra.Keyring.Data.{Key, RingData, no_key, key_with_seqnum}
use acra.Keyring.Disk.{Disk, Faults}
use acra.Keyring.Tx.{Tx, set_key_current, change_key_state, add_key, destroy_key_data}
use acra.Keyring.Sync.{Codec, Ring, Run, sync_key_ring}

abbrev pub push_tx : Tx → Ring → Ring
push_tx tx ring = record ring { tx_log = ring.tx_log ++ tx ∷ [] }

all_but_last : List Tx → List Tx
all_but_last [] = []
all_but_last (tx ∷ []) = []
all_but_last (tx ∷ next ∷ rest) = tx ∷ all_but_last (next ∷ rest)

unfoldable pub pop_tx : Ring → Ring
unfolding all_but_last
pop_tx ring = record ring { tx_log = all_but_last ring.tx_log }

-- `if err != nil { r.popTX() }`, with what is to be popped
unfoldable pub pop_on_error : (Ring → Ring) → Run → Run
pop_on_error pops r = elim r.result [
  | ok _ ↦ r
  | err e ↦ record r { ring = pops r.ring }
  | panic ↦ r
]

abbrev pub refuse : KeyError → Disk → Ring → Run
refuse e disk ring = record { disk = disk; ring = ring; result = err e }

module _ (c : Codec) (f : Faults) (now : ℕ) (disk : Disk) where
  -- `SetCurrent`
  unfoldable pub set_current : ℕ → Ring → Run
  unfolding pop_on_error
  set_current new_seqnum ring = pop_on_error pop_tx (
      sync_key_ring c f now disk (push_tx (set_key_current ring.ring_data.current new_seqnum) ring))

  -- `changeKeyState`
  unfoldable pub change_state : ℕ → KeyState → KeyState → Ring → Run
  unfolding pop_on_error
  change_state seqnum old_state new_state ring =
      pop_on_error pop_tx
        (sync_key_ring c f now disk (push_tx (change_key_state seqnum old_state new_state) ring))

  -- `SetState`
  unfoldable pub set_state : ℕ → KeyState → Ring → Run
  unfolding change_state
  set_state seqnum new_state ring = elim (key_with_seqnum seqnum ring.ring_data.keys) [
    | none ↦ refuse key_not_exist disk ring
    | some key ↦
        if not (transition_valid key.state new_state)
        then refuse invalid_state disk ring
        else change_state seqnum key.state new_state ring
  ]

  -- `addKey` of keyRing.go
  unfoldable pub add_new_key : Key → Ring → Run
  unfolding pop_on_error
  add_new_key new_key ring =
      pop_on_error pop_tx (sync_key_ring c f now disk (push_tx (add_key new_key) ring))

  -- `destroyKey` of keyRing.go
  unfoldable pub destroy : ℕ → KeyState → Ring → Run
  unfolding pop_on_error
  destroy seqnum current_state ring =
      pop_on_error (λ r. pop_tx (pop_tx r))
        (sync_key_ring c f now disk (
          push_tx (change_key_state seqnum current_state destroyed)
            (push_tx (destroy_key_data seqnum []) ring)))

  -- `DestroyKey`
  unfoldable pub destroy_key : ℕ → Ring → Run
  unfolding destroy
  destroy_key seqnum ring = elim (key_with_seqnum seqnum ring.ring_data.keys) [
    | none ↦ refuse key_not_exist disk ring
    | some key ↦
        if not (transition_valid key.state destroyed)
        then refuse invalid_state disk ring
        else destroy seqnum key.state ring
  ]

-- `CurrentKey`
unfoldable pub current_key : Ring → Outcome KeyError ℕ
current_key ring =
    if ring.ring_data.current == no_key then err no_current_key else ok ring.ring_data.current

-- The loop of `AllKeys`, which fills the result from its end.
abbrev pub newest_first : List Key → List ℕ → List ℕ
newest_first [] seqnums = seqnums
newest_first (k ∷ ks) seqnums = newest_first ks (k.seqnum ∷ seqnums)

-- `AllKeys`
unfoldable pub all_keys : Ring → List ℕ
all_keys ring = newest_first ring.ring_data.keys []

-- `nextSeqnum`; 1 is `firstSeqnum`
unfoldable pub next_seqnum : List Key → ℕ
next_seqnum [] = 1
next_seqnum (k ∷ []) = (k.seqnum + 1) % 0x10000000000000000
next_seqnum (k ∷ j ∷ ks) = next_seqnum (j ∷ ks)
