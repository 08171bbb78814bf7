-- ===== src/Keyring/Tx.antt =====
-- Transactions on a key ring: keystore/v2/keystore/filesystem/keyRingTX.go, and `applyPendingTX`
-- of keyRing.go. A transaction keeps its backup in itself, so `apply` returns it again.
pub mod Undo
pub mod Atomic
use acra.Base.{
  ℕ, Bool, true, false, not, ◌&&◌, ◌||◌, Option, none, some, List, [], ◌∷◌, ◌++◌, ◌==◌,
  if◌then◌else◌,
}
use acra.Base.Outcome.{Outcome, ok, err, panic, ◌>>=◌}
use acra.Keyring.State.{KeyState}
use acra.Keyring.Data.{
  Key, KeyData, RingData, no_key, key_with_seqnum, update_key, set_state, set_data,
}
use acra.Keyring.Errors.{KeyError, tx_concurrent_modification, tx_key_not_found, tx_key_exists}

pub data Tx : Type 0 where
  set_key_current : ℕ → ℕ → Tx
  change_key_state : ℕ → KeyState → KeyState → Tx
  add_key : Key → Tx
  -- new keys, new current; old keys, old current
  set_keys : List Key → ℕ → List Key → ℕ → Tx
  -- seqnum, backup of the data
  destroy_key_data : ℕ → List KeyData → Tx

abbrev is_nil : Option Key → Bool
is_nil none = true
is_nil (some k) = false

-- whether a key that must be there, unless it is `NoKey`, is missing
abbrev is_missing : ℕ → List Key → Bool
is_missing s keys = not (s == no_key) && is_nil (key_with_seqnum s keys)

drop_last : List Key → Outcome KeyError (List Key)
drop_last [] = panic
drop_last (k ∷ []) = ok []
drop_last (k ∷ j ∷ ks) = do rest ← drop_last (j ∷ ks); ok (k ∷ rest)

unfoldable pub apply : Tx → RingData → Outcome KeyError (Tx × RingData)
apply (set_key_current old new) r =
    if not (r.current == old)
    then err tx_concurrent_modification
    else if is_missing old r.keys
    then err tx_key_not_found
    else if is_nil (key_with_seqnum new r.keys)
    then err tx_key_not_found
    else ok (set_key_current old new, record r { current = new })
apply (change_key_state s old new) r = elim (key_with_seqnum s r.keys) [
  | none ↦ err tx_key_not_found
  | some key ↦
      if not (key.state == old)
      then err tx_concurrent_modification
      else ok (change_key_state s old new, record r { keys = update_key s (set_state new) r.keys })
]
apply (add_key new) r = elim (key_with_seqnum new.seqnum r.keys) [
  | some key ↦ err tx_key_exists
  | none ↦ ok (add_key new, record r { keys = r.keys ++ new ∷ [] })
]
apply (set_keys keys current _ _) r =
    ok (set_keys keys current r.keys r.current, record r { keys = keys; current = current })
apply (destroy_key_data s backup) r = elim (key_with_seqnum s r.keys) [
  | none ↦ err tx_key_not_found
  | some key ↦
      ok (destroy_key_data s key.key_data, record r { keys = update_key s (set_data []) r.keys })
]

unfoldable pub rollback : Tx → RingData → Outcome KeyError (Tx × RingData)
unfolding drop_last
rollback (set_key_current old new) r =
    if is_nil (key_with_seqnum new r.keys)
    then err tx_key_not_found
    else if is_missing old r.keys
    then err tx_key_not_found
    else ok (set_key_current old new, record r { current = old })
rollback (change_key_state s old new) r = elim (key_with_seqnum s r.keys) [
  | none ↦ err tx_key_not_found
  | some key ↦
      ok (change_key_state s old new, record r { keys = update_key s (set_state old) r.keys })
]
rollback (add_key new) r = do keys ← drop_last r.keys; ok (add_key new, record r { keys = keys })
rollback (set_keys keys current old_keys old_current) r = ok (
  set_keys keys current old_keys old_current,
  record r { keys = old_keys; current = old_current },
)
rollback (destroy_key_data s backup) r = elim (key_with_seqnum s r.keys) [
  | none ↦ panic
  | some key ↦ ok (destroy_key_data s [], record r { keys = update_key s (set_data backup) r.keys })
]

-- What `applyPendingTX` leaves behind: the log, the data and the error, if any.
pub data Applied : Type 0 where
  applied : List Tx → RingData → Applied
  rejected : KeyError → List Tx → RingData → Applied
  crashed : Applied

-- `for i := lastTX - 1; i >= 0; i--`: the transactions that were applied, the last one first. An
-- error of a rollback is only logged.
unfoldable pub roll_back_all : KeyError → List Tx → List Tx → RingData → Applied
roll_back_all e [] log r = rejected e log r
roll_back_all e (tx ∷ earlier) log r = elim (rollback tx r) [
  | ok (tx', r') ↦ roll_back_all e earlier (tx' ∷ log) r'
  | err e' ↦ roll_back_all e earlier (tx ∷ log) r
  | panic ↦ crashed
]

reverse_onto : List Tx → List Tx → List Tx
reverse_onto [] log = log
reverse_onto (tx ∷ earlier) log = reverse_onto earlier (tx ∷ log)

-- The loop over the log; `past` holds the applied transactions, the last one first.
unfoldable pub apply_from : List Tx → List Tx → RingData → Applied
unfolding roll_back_all reverse_onto
apply_from past [] r = applied (reverse_onto past []) r
apply_from past (tx ∷ rest) r = elim (apply tx r) [
  | ok (tx', r') ↦ apply_from (tx' ∷ past) rest r'
  | err e ↦ roll_back_all e past (tx ∷ rest) r
  | panic ↦ crashed
]

abbrev pub apply_pending : List Tx → RingData → Applied
apply_pending log r = apply_from [] log r
