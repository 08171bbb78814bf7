-- ===== src/Keyring/Ring/Safe.antt =====
-- Any number of processes, each with a snapshot of its own, operate on one stored key ring.
use acra.Base.{
  ℕ, ◌≡◌, refl, sym, ◌∙◌, List, [], ◌∷◌, arith, Bytes, Bool-cases, inl, inr, ◌⊎◌, Option-cases,
}
use acra.Base.Outcome.{ok_injective, ok}
use acra.Keyring.State.{KeyState, destroyed, transition_valid}
use acra.Keyring.Data.{Key, RingData, key_with_seqnum}
use acra.Keyring.Disk.{Disk, Faults}
use acra.Keyring.Tx.{Tx, change_key_state, destroy_key_data}
use acra.Keyring.Sync.{Codec, as_stored, Ring, Run, idle, sync_key_ring, write_key_ring}
use acra.Keyring.Sync.Durable.{persisted, IsStored}
use acra.Keyring.Sync.Write.{write_key_ring-IsStored}
use acra.Keyring.Ring.{
  pop_tx, pop_on_error, set_current, change_state, set_state, add_new_key, destroy, destroy_key,
}
use acra.Keyring.Ring.Advance.{
  Advances, Advances-refl, Advances-trans, as_stored-Advances, AllValid, apply_from-Advances,
}

-- The operations of `MutableKeyRing` on one key of the stored ring.
pub data Op : Type 0 where
  make_current : ℕ → Op
  change : ℕ → KeyState → Op
  add : Key → Op
  destroy_one : ℕ → Op

abbrev pub perform : Codec → Faults → ℕ → Disk → Ring → Op → Run
perform c f now disk ring (make_current s) = set_current c f now disk s ring
perform c f now disk ring (change s state) = set_state c f now disk s state ring
perform c f now disk ring (add key) = add_new_key c f now disk key ring
perform c f now disk ring (destroy_one s) = destroy_key c f now disk s ring

-- The stored ring is as it was, or each of its keys moved along its life cycle.
abbrev pub Moves : Codec → Bytes → Disk → Disk → Type 0
Moves c path disk disk' =
    (persisted c disk' path ≡ persisted c disk path)
    ⊎ ((before : RingData) × (after : RingData) × (persisted c disk path ≡ ok before)
        × (persisted c disk' path ≡ ok after)
        × Advances before after)

module _ (c : Codec) (f : Faults) (now : ℕ) (disk : Disk) where
  stored-Moves :
      (ring : Ring) {disk' : Disk}
      → AllValid ring.tx_log
      → (persisted c disk' ring.path ≡ persisted c disk ring.path) ⊎ IsStored c disk ring disk'
      → Moves c ring.path disk disk'
  stored-Moves ring v (inl kept) = inl kept
  stored-Moves ring v (inr s) = inr (
    s.before,
    as_stored c.sorted s.after,
    s.read,
    s.written,
    Advances-trans (apply_from-Advances [] ring.tx_log s.before v s.applies)
        (as_stored-Advances c.sorted s.after),
  )

  pop_on_error-disk : (pops : Ring → Ring) (r : Run) → (pop_on_error pops r).disk ≡ r.disk
  unfolding pop_on_error
  pop_on_error-disk pops r = ground arith

  sync-Moves :
      (path : Bytes) (ring_data : RingData) (tx : Tx) (rest : List Tx) (pops : Ring → Ring)
      → AllValid (tx ∷ rest)
      → Moves c path disk
          (pop_on_error pops (
            sync_key_ring c f now disk
              (record { path = path; ring_data = ring_data; tx_log = tx ∷ rest }))).disk
  unfolding sync_key_ring
  sync-Moves path ring_data tx rest pops v =
      let ring : Ring = record { path = path; ring_data = ring_data; tx_log = tx ∷ rest } in
      rw (pop_on_error-disk pops (write_key_ring c f now disk ring))
        (stored-Moves ring v (write_key_ring-IsStored c f now disk ring))

  -- Whatever the snapshot holds and whichever calls fail.
  perform-Moves :
      (path : Bytes) (snapshot : RingData) (op : Op)
      → Moves c path disk (perform c f now disk (idle path snapshot) op).disk
  unfolding set_current set_state change_state add_new_key destroy_key destroy
  perform-Moves path snapshot (make_current s) = sync-Moves path snapshot _ [] pop_tx (tt, tt)
  perform-Moves path snapshot (change s state) =
      elim (Option-cases (key_with_seqnum s snapshot.keys)) [
        | inr e ↦ rw (e, set_state) (inl refl)
        | inl (key, e) ↦ elim (Bool-cases (transition_valid key.state state)) [
          | inr bad ↦ rw (e, set_state, bad) (inl refl)
          | inl fine ↦ rw (e, set_state, fine) (sync-Moves path snapshot _ [] pop_tx (fine, tt))
        ]
      ]
  perform-Moves path snapshot (add key) = sync-Moves path snapshot _ [] pop_tx (tt, tt)
  perform-Moves path snapshot (destroy_one s) =
      elim (Option-cases (key_with_seqnum s snapshot.keys)) [
        | inr e ↦ rw (e, destroy_key) (inl refl)
        | inl (key, e) ↦ elim (Bool-cases (transition_valid key.state destroyed)) [
          | inr bad ↦ rw (e, destroy_key, bad) (inl refl)
          | inl fine ↦
              rw (e, destroy_key, fine)
                (sync-Moves path snapshot (destroy_key_data s [])
                  (change_key_state s key.state destroyed ∷ []) (λ r. pop_tx (pop_tx r))
                  (tt, (fine, tt)))
        ]
      ]

-- One step of the world: some process performs an operation on the ring at `path`, under some
-- failures and with some snapshot; or something happens that does not touch the ring.
pub data Step (c : Codec) (path : Bytes) (disk disk' : Disk) : Type 0 where
  operate :
      (f : Faults) (now : ℕ) (snapshot : RingData) (op : Op)
      → disk' ≡ (perform c f now disk (idle path snapshot) op).disk
      → Step c path disk disk'
  elsewhere : persisted c disk' path ≡ persisted c disk path → Step c path disk disk'

pub data Steps (c : Codec) (path : Bytes) (disk : Disk) : Disk → Type 0 where
  start : Steps c path disk disk
  and_then :
      {disk1 disk2 : Disk}
      → Steps c path disk disk1
      → Step c path disk1 disk2
      → Steps c path disk disk2

Step-Moves :
    (c : Codec) (path : Bytes) {disk disk' : Disk}
    → Step c path disk disk'
    → Moves c path disk disk'
Step-Moves c path {disk} {disk'} (operate f now snapshot op e) =
    rw e (perform-Moves c f now disk path snapshot op)
Step-Moves c path (elsewhere same) = inl same

-- From a stored ring, whatever processes set the current key, set the state of a key, add a key or
-- destroy one, with whatever snapshots and under whatever failures of the back end, there is always a
-- stored ring that reads, it has every key that it had, and the state of each of its keys was reached
-- by transitions that KeyStateTransitionValid allows. An import, which replaces the keys, is not
-- among these operations.
pub Steps-Advances :
    (c : Codec) (path : Bytes) (before : RingData) {disk disk' : Disk}
    → persisted c disk path ≡ ok before
    → Steps c path disk disk'
    → (after : RingData) × (persisted c disk' path ≡ ok after) × Advances before after
Steps-Advances c path before h start = (before, h, Advances-refl before)
Steps-Advances c path before {disk} h (and_then {disk1} {disk2} steps step) =
    let (mid, stored, so_far) = Steps-Advances c path before h steps in
    elim (Step-Moves c path step) [
      | inl same ↦ (mid, same ∙ stored, so_far)
      | inr (mid', after, read, written, moved) ↦
          let e : mid ≡ mid' = ok_injective (sym stored ∙ read) in
          (after, written, Advances-trans so_far (rw e moved))
    ]
