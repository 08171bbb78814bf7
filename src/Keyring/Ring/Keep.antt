-- ===== src/Keyring/Ring/Keep.antt =====
-- What `AddKey` and `DestroyKey` leave in the ring.
use mathlib.Core.List.Perm
use acra.Base.{
  ℕ, ◌≡◌, refl, ap, ◌∙◌, some, List, [], ◌∷◌, ◌++◌, arith, Bytes, Bool-cases, inl, inr,
  Option-cases, ==_refl,
}
use acra.Base.Outcome.{ok, Outcome-cases}
use acra.Keyring.State.{KeyState, destroyed, transition_valid}
use acra.Keyring.Data.{
  Key, RingData, key_with_seqnum, update_key, set_data, key_with_seqnum-seqnum,
  key_with_seqnum-update_key,
}
use acra.Keyring.Data as KeyringData
use acra.Keyring.Disk.{Disk, Faults}
use acra.Keyring.Tx.{
  Tx, change_key_state, destroy_key_data, apply, applied, apply_from, apply_pending,
}
use acra.Keyring.Sync.{
  Codec, Ring, Run, idle, as_stored_key, as_stored, sync_key_ring, write_key_ring,
}
use acra.Keyring.Sync.Durable.{persisted}
use acra.Keyring.Sync.Write.{IsCommitted, write_key_ring-IsCommitted}
use acra.Keyring.Ring.{pop_tx, pop_on_error, destroy_key}
use acra.Keyring.Ring.Advance.{
  change_key_state-keys, destroy_key_data-keys, roll_back_all-ne-applied, key_with_seqnum-as_stored,
}

pop_on_error-ok :
    (pops : Ring → Ring) (r : Run)
    → (pop_on_error pops r).result ≡ ok tt
    → (pop_on_error pops r ≡ r) × (r.result ≡ ok tt)
unfolding pop_on_error
pop_on_error-ok pops r h = ground arith

pub apply_from-cons :
    (past rest : List Tx) (tx : Tx) (r : RingData) {log : List Tx} {after : RingData}
    → apply_from past (tx ∷ rest) r ≡ applied log after
    → (tx' : Tx) × (r' : RingData) × (apply tx r ≡ ok (tx', r'))
      × (apply_from (tx' ∷ past) rest r' ≡ applied log after)
unfolding apply_from
apply_from-cons past rest tx r {log} {after} h = elim (Outcome-cases (apply tx r)) [
  | inl ((tx', r'), e) ↦ (tx', r', e, rw (e, apply_from) at h)
  | inr (inl (e', e)) ↦
      absurd (roll_back_all-ne-applied e' past (tx ∷ rest) log r after (rw (e, apply_from) at h))
  | inr (inr e) ↦ absurd (ground arith)
]

pub apply_from-nil :
    (past : List Tx) (r : RingData) {log : List Tx} {after : RingData}
    → apply_from past [] r ≡ applied log after
    → after ≡ r
unfolding apply_from
apply_from-nil past r {log} {after} h = ground arith

pub key_with_seqnum-concat :
    (ks : List Key) (new : Key) → key_with_seqnum new.seqnum (ks ++ new ∷ []) ≡ some new
unfolding key_with_seqnum
key_with_seqnum-concat [] new = rw ==_refl
key_with_seqnum-concat (k ∷ ks) new = rw (key_with_seqnum-concat ks new)

-- The key at a seqnum after a write through its pointer, whatever else the list holds.
written_key :
    (s : ℕ) (f : Key → Key) (ks : List Key) (k : Key)
    → key_with_seqnum s ks ≡ some k
    → (f k).seqnum ≡ k.seqnum
    → key_with_seqnum s (update_key s f ks) ≡ some (f k)
written_key s f ks k e keeps =
    key_with_seqnum-update_key s f (keeps ∙ key_with_seqnum-seqnum s ks e) ks e

destroyed_after :
    (s : ℕ) (old : KeyState) (before : RingData) {log : List Tx} {after : RingData}
    → apply_pending (destroy_key_data s [] ∷ change_key_state s old destroyed ∷ []) before
      ≡ applied log after
    → (k : Key) × (key_with_seqnum s after.keys ≡ some k)
      × (k.state ≡ destroyed)
      × (k.key_data ≡ [])
destroyed_after s old before h =
    let (tx1, r1, e1, h1) = apply_from-cons [] _ (destroy_key_data s []) before h in
    let (tx2, r2, e2, h2) = apply_from-cons _ [] (change_key_state s old destroyed) r1 h1 in
    let (k0, at0, keys1) = destroy_key_data-keys s [] before e1 in
    let (k1, at1, was, keys2) = change_key_state-keys s old destroyed r1 e2 in
    let wiped : key_with_seqnum s r1.keys ≡ some (set_data [] k0) =
      rw keys1 (written_key s (set_data []) before.keys k0 at0 refl) in
    let is_k1 : k1 ≡ set_data [] k0 = cc (at1, wiped) in
    (
      record k1 { state = destroyed },
      ap (λ (r : RingData). key_with_seqnum s r.keys) (apply_from-nil _ r2 h2)
          ∙ (ap (key_with_seqnum s) keys2
              ∙ written_key s (KeyringData.set_state destroyed) r1.keys k1 at1 refl),
      refl,
      rw is_k1 refl,
    )

module _ (c : Codec) (f : Faults) (now : ℕ) (disk : Disk) where
  pub sync-IsCommitted :
      (path : Bytes) (ring_data : RingData) (tx : Tx) (rest : List Tx) (pops : Ring → Ring)
      → let ring : Ring = record { path = path; ring_data = ring_data; tx_log = tx ∷ rest } in
        (pop_on_error pops (sync_key_ring c f now disk ring)).result ≡ ok tt
        → IsCommitted c disk ring (pop_on_error pops (sync_key_ring c f now disk ring))
  unfolding sync_key_ring
  sync-IsCommitted path ring_data tx rest pops h =
      let ring : Ring = record { path = path; ring_data = ring_data; tx_log = tx ∷ rest } in
      let (same, fine) = pop_on_error-ok pops (write_key_ring c f now disk ring) h in
      rw same (write_key_ring-IsCommitted c f now disk ring fine)

  -- Once `DestroyKey` has returned no error, the stored key is destroyed and its data is erased.
  pub destroy_key-erased :
      (path : Bytes) (snapshot : RingData) (s : ℕ)
      → (destroy_key c f now disk s (idle path snapshot)).result ≡ ok tt
      → (after : RingData) × (k : Key) × (persisted c
            (destroy_key c f now disk s (idle path snapshot)).disk
            path
          ≡ ok after)
        × (key_with_seqnum s after.keys ≡ some k)
        × (k.state ≡ destroyed)
        × (k.key_data ≡ [])
  unfolding destroy_key
  destroy_key-erased path snapshot s h = elim (Option-cases (key_with_seqnum s snapshot.keys)) [
    | inr e ↦ absurd (ground arith)
    | inl (key, e) ↦ elim (Bool-cases (transition_valid key.state destroyed)) [
      | inr bad ↦ absurd (ground arith)
      | inl fine ↦
          let (st, same) =
            sync-IsCommitted path snapshot (destroy_key_data s [])
              (change_key_state s key.state destroyed ∷ []) (λ r. pop_tx (pop_tx r))
              (rw (e, destroy_key, fine) at h) in
          let (k, at, gone, erased) = destroyed_after s key.state st.before st.applies in
          rw (e, destroy_key, fine)
            (
              as_stored c.sorted st.after,
              as_stored_key c.sorted k,
              st.written,
              key_with_seqnum-as_stored c.sorted s st.after.keys at,
              gone,
              ap c.sorted erased ∙ Perm.eq-nil (c.sorted-Perm []),
            )
    ]
  ]
