-- ===== src/Keyring/Tx/Undo.antt =====
-- A transaction that was applied is undone by its rollback.
use acra.Base.{ℕ, ◌≡◌, refl, Option, none, some, List, [], ◌∷◌, ◌++◌, arith}
use acra.Base.Outcome.{ok}
use acra.Keyring.Data.{
  Key, KeyData, RingData, key_with_seqnum, set_state, set_data, key_with_seqnum-seqnum,
  key_with_seqnum-update_key, update_key-update_key,
}
use acra.Keyring.Tx.{
  Tx, set_key_current, change_key_state, add_key, set_keys, destroy_key_data, apply, rollback,
  drop_last,
}

drop_last-concat : (ks : List Key) (k : Key) → drop_last (ks ++ k ∷ []) ≡ ok ks
unfolding drop_last
drop_last-concat [] k = refl
drop_last-concat (j ∷ []) k = refl
drop_last-concat (j ∷ i ∷ ks) k = rw (drop_last-concat (i ∷ ks) k)

-- A transaction after its rollback, which drops the backup of destroyed data.
abbrev pub spent : Tx → Tx
spent (destroy_key_data s backup) = destroy_key_data s []
spent tx = tx

change_key_state-undo :
    (s old new : ℕ) (r : RingData) (o : Option Key) {tx' : Tx} {r' : RingData}
    → key_with_seqnum s r.keys ≡ o
    → apply (change_key_state s old new) r ≡ ok (tx', r')
    → rollback tx' r' ≡ ok (spent tx', r)
unfolding apply rollback
change_key_state-undo s old new r none {tx'} {r'} e h = absurd (ground arith)
change_key_state-undo s old new r (some k) {tx'} {r'} e h = ground (
  arith,
  key_with_seqnum-seqnum s r.keys {k = k},
  key_with_seqnum-update_key s (set_state new) {k = k} (key_with_seqnum-seqnum s r.keys e) r.keys,
  update_key-update_key s (set_state new) {k = k} (key_with_seqnum-seqnum s r.keys e)
      (set_state old) r.keys,
)

destroy_key_data-undo :
    (s : ℕ) (backup : List KeyData) (r : RingData) (o : Option Key) {tx' : Tx} {r' : RingData}
    → key_with_seqnum s r.keys ≡ o
    → apply (destroy_key_data s backup) r ≡ ok (tx', r')
    → rollback tx' r' ≡ ok (spent tx', r)
unfolding apply rollback
destroy_key_data-undo s backup r none {tx'} {r'} e h = absurd (ground arith)
destroy_key_data-undo s backup r (some k) {tx'} {r'} e h = ground (
  arith,
  key_with_seqnum-update_key s (set_data []) {k = k} (key_with_seqnum-seqnum s r.keys e) r.keys,
  update_key-update_key s (set_data []) {k = k} (key_with_seqnum-seqnum s r.keys e)
      (set_data k.key_data) r.keys,
)

-- Whatever an applied transaction changed, its rollback restores.
pub rollback-apply :
    (tx : Tx) (r : RingData) {tx' : Tx} {r' : RingData}
    → apply tx r ≡ ok (tx', r')
    → rollback tx' r' ≡ ok (spent tx', r)
unfolding apply rollback
rollback-apply (set_key_current old new) r {tx'} {r'} h = ground arith
rollback-apply (change_key_state s old new) r h =
    change_key_state-undo s old new r (key_with_seqnum s r.keys) refl h
rollback-apply (add_key new) r {tx'} {r'} h = ground (arith, drop_last-concat r.keys new)
rollback-apply (set_keys keys current a b) r {tx'} {r'} h = ground arith
rollback-apply (destroy_key_data s backup) r h =
    destroy_key_data-undo s backup r (key_with_seqnum s r.keys) refl h
