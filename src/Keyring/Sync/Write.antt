-- ===== src/Keyring/Sync/Write.antt =====
-- `writeKeyRing` takes effect as a whole, or leaves the stored ring alone.
use acra.Base.{ℕ, ◌≡◌, refl, [], arith, inl, inr, ◌⊎◌}
use acra.Base.Dict.{lookup}
use acra.Base.Outcome.{Outcome, ok, err, panic, Outcome-cases}
use acra.Base.{Option-cases}
use acra.Keyring.Errors.{KeyError}
use acra.Keyring.Data.{RingData}
use acra.Keyring.Disk.{Disk, Faults}
use acra.Keyring.Tx.{Applied, applied, rejected, crashed, apply_pending}
use acra.Keyring.Sync.{
  Codec, Ring, Run, current_path, unlocked, pull_ring_updates, push_applied, write_locked,
  write_key_ring,
}
use acra.Keyring.Sync.Durable.{persisted, pull-persisted, push-ok, push-err, push-ring, IsStored}

unlocked-disk : (f : Faults) (r : Run) → (unlocked f r).disk ≡ r.disk
unlocked-disk f r = ground arith

unlocked-ok : (f : Faults) (r : Run) → (unlocked f r).result ≡ ok tt → r.result ≡ ok tt
unlocked-ok f r h = ground arith

unlocked-same : (f : Faults) (r : Run) → (unlocked f r).result ≡ ok tt → unlocked f r ≡ r
unlocked-same f r h = ground arith

result-cases : (o : Outcome KeyError (Unit {0})) → (o ≡ ok tt) ⊎ (o ≡ ok tt → ⊥)
result-cases (ok tt) = inl refl
result-cases (err e) = inr (λ h. cc)
result-cases panic = inr (λ h. cc)

abbrev pub IsCommitted : (c : Codec) → Disk → Ring → Run → Type 0
IsCommitted c disk ring r =
    (s : IsStored c disk ring r.disk) × (r.ring
      ≡ record { path = ring.path; ring_data = s.after; tx_log = [] })

module _ (c : Codec) (f : Faults) (now : ℕ) (disk : Disk) where
  -- a push of what was applied to the stored ring `before`
  push_applied-IsCommitted :
      (ring : Ring) (before : RingData) (a : Applied)
      → persisted c disk ring.path ≡ ok before
      → apply_pending ring.tx_log before ≡ a
      → (push_applied c f now disk (record ring { ring_data = before }) a).result ≡ ok tt
      → IsCommitted c disk ring (push_applied c f now disk (record ring { ring_data = before }) a)
  unfolding push_applied
  push_applied-IsCommitted ring before (applied log after) read e h =
      let pushed : Ring = record { path = ring.path; ring_data = after; tx_log = log } in
      (
        record {
          before = before;
          after = after;
          log = log;
          read = read;
          applies = e;
          written = ground (arith, push-ok c f now disk pushed);
        },
        ground (arith, push-ring c f now disk pushed),
      )
  push_applied-IsCommitted ring before (rejected e' log after) read e h = absurd (ground arith)
  push_applied-IsCommitted ring before crashed read e h = absurd (ground arith)

  push_applied-kept :
      (ring : Ring) (before : RingData) (a : Applied)
      → ((push_applied c f now disk (record ring { ring_data = before }) a).result ≡ ok tt → ⊥)
      → lookup
          (current_path ring.path)
          (push_applied c f now disk (record ring { ring_data = before }) a).disk
        ≡ lookup (current_path ring.path) disk
  unfolding push_applied
  push_applied-kept ring before (applied log after) h =
      ground (
        arith,
        push-err c f now disk (record { path = ring.path; ring_data = after; tx_log = log }),
      )
  push_applied-kept ring before (rejected e' log after) h = refl
  push_applied-kept ring before crashed h = refl

  write_locked-IsCommitted :
      (ring : Ring)
      → (write_locked c f now disk ring).result ≡ ok tt
      → IsCommitted c disk ring (write_locked c f now disk ring)
  unfolding write_locked
  write_locked-IsCommitted ring h = elim (Outcome-cases (pull_ring_updates c f disk ring)) [
    | inl (ring1, e) ↦
        let (read, same) = pull-persisted c f now disk ring ring1 e in
        rw (e, write_locked)
          (rw same (
            push_applied-IsCommitted ring ring1.ring_data _ read refl
              (rw same at (rw (e, write_locked) at h))))
    | inr (inl (e', e)) ↦ absurd (ground arith)
    | inr (inr e) ↦ absurd (ground arith)
  ]

  write_locked-kept :
      (ring : Ring)
      → ((write_locked c f now disk ring).result ≡ ok tt → ⊥)
      → lookup (current_path ring.path) (write_locked c f now disk ring).disk
        ≡ lookup (current_path ring.path) disk
  unfolding write_locked
  write_locked-kept ring h = elim (Outcome-cases (pull_ring_updates c f disk ring)) [
    | inl (ring1, e) ↦
        let (read, same) = pull-persisted c f now disk ring ring1 e in
        rw (e, write_locked)
          (rw same
            (push_applied-kept ring ring1.ring_data _ (rw same at (rw (e, write_locked) at h))))
    | inr (inl (e', e)) ↦ ground arith
    | inr (inr e) ↦ ground arith
  ]

  -- Under every failure of the back end, the stored ring is as it was, or it is the encoding of the
  -- earlier stored ring with all pending transactions applied: times in whole seconds, and the data
  -- of a key sorted.
  pub write_key_ring-IsStored :
      (ring : Ring)
      → (persisted c (write_key_ring c f now disk ring).disk ring.path ≡ persisted c disk ring.path)
        ⊎ IsStored c disk ring (write_key_ring c f now disk ring).disk
  unfolding write_key_ring
  write_key_ring-IsStored ring = elim (Option-cases f.lock) [
    | inl (e, locked) ↦ rw (locked, write_key_ring) (inl refl)
    | inr free ↦
        rw (free, write_key_ring, unlocked-disk f (write_locked c f now disk ring))
          (elim (result-cases (write_locked c f now disk ring).result) [
            | inl h ↦ inr (write_locked-IsCommitted ring h).0
            | inr h ↦ inl (rw (write_locked-kept ring h, persisted))
          ])
  ]

  -- A write that reports no error took effect. The snapshot is then the earlier stored ring with all
  -- pending transactions applied, of which the stored ring is the encoding, and no transaction is
  -- pending.
  pub write_key_ring-IsCommitted :
      (ring : Ring)
      → (write_key_ring c f now disk ring).result ≡ ok tt
      → IsCommitted c disk ring (write_key_ring c f now disk ring)
  unfolding write_key_ring
  write_key_ring-IsCommitted ring h = elim (Option-cases f.lock) [
    | inl (e, locked) ↦ absurd (ground arith)
    | inr free ↦
        let r = write_locked c f now disk ring in
        let fine = unlocked-ok f r (rw (free, write_key_ring) at h) in
        rw (free, write_key_ring)
          (rw (unlocked-same f r (rw (free, write_key_ring) at h))
            (write_locked-IsCommitted ring fine))
  ]
