-- ===== src/Keyring/Ring/Advance.antt =====
-- Whatever a transaction with a valid transition does, each key's state moves along its life cycle.
use acra.Base.{
  ℕ, ◌≡◌, ◌∙◌, true, false, none, some, List, [], ◌∷◌, ◌++◌, ◌==◌, arith, Bool-cases, inl, inr,
  ==_iff, Option-cases, map, ap, refl,
}
use acra.Base.Outcome.{ok, Outcome-cases}
use acra.Keyring.Errors.{KeyError}
use acra.Keyring.State.{KeyState, transition_valid, History, here, next}
use acra.Keyring.Data.{
  Key, KeyData, RingData, key_with_seqnum, update_key, set_state, set_data, key_with_seqnum-seqnum,
  key_with_seqnum-update_key, key_with_seqnum-update_key_ne,
}
use acra.Keyring.Sync.{as_stored_key, as_stored}
use acra.Keyring.Tx.{
  Tx, set_key_current, change_key_state, add_key, set_keys, destroy_key_data, apply, applied,
  apply_from, rollback, roll_back_all,
}

-- Every key of `r` is still there in `r'`, and its state was reached by valid transitions.
pub record Advances (r r' : RingData) : Type 0 where
  pub at :
      (t : ℕ) (k : Key)
      → key_with_seqnum t r.keys ≡ some k
      → (k' : Key) × (key_with_seqnum t r'.keys ≡ some k') × History k.state k'.state

pub Advances-refl : (r : RingData) → Advances r r
Advances-refl r = record { at = λ t k h. (k, h, here) }

History-trans : {a b d : KeyState} → History a b → History b d → History a d
History-trans h here = h
History-trans h (next i v) = next (History-trans h i) v

pub Advances-trans : {r s u : RingData} → Advances r s → Advances s u → Advances r u
Advances-trans p q = record {
  at = λ t k h.
      let (k', h', past) = p.at t k h in
      let (k'', h'', later) = q.at t k' h' in (k'', h'', History-trans past later);
}

module _ (sorted : List KeyData → List KeyData) (t : ℕ) where
  key_with_seqnum-missing :
      (ks : List Key)
      → key_with_seqnum t ks ≡ none
      → key_with_seqnum t (map (as_stored_key sorted) ks) ≡ none
  unfolding key_with_seqnum
  key_with_seqnum-missing [] h = refl
  key_with_seqnum-missing (x ∷ ks) h = elim (Option-cases (key_with_seqnum t ks)) [
    | inl (found, e) ↦ absurd (ground arith)
    | inr e ↦ rw (key_with_seqnum-missing ks e) (ground arith)
  ]

  -- The search finds the encoding of what it found.
  pub key_with_seqnum-as_stored :
      (ks : List Key) {k : Key}
      → key_with_seqnum t ks ≡ some k
      → key_with_seqnum t (map (as_stored_key sorted) ks) ≡ some (as_stored_key sorted k)
  unfolding key_with_seqnum
  key_with_seqnum-as_stored [] h = absurd (ground arith)
  key_with_seqnum-as_stored (x ∷ ks) {k} h = elim (Option-cases (key_with_seqnum t ks)) [
    | inl (found, e) ↦
        let is_k : found ≡ k = ground arith in
        rw (key_with_seqnum-as_stored ks e) (ap (λ (j : Key). some (as_stored_key sorted j)) is_k)
    | inr e ↦ rw (key_with_seqnum-missing ks e) (elim (Bool-cases (x.seqnum == t)) [
      | inl same ↦
          let is_k : x ≡ k = ground arith in
          rw same (ap (λ (j : Key). some (as_stored_key sorted j)) is_k)
      | inr other ↦ absurd (ground arith)
    ])
  ]

-- The encoding of a ring keeps its keys and their states.
pub as_stored-Advances :
    (sorted : List KeyData → List KeyData) (r : RingData) → Advances r (as_stored sorted r)
as_stored-Advances sorted r = record {
  at = λ t k h. (as_stored_key sorted k, key_with_seqnum-as_stored sorted t r.keys h, here);
}

-- What the operations of a ring put into its log.
abbrev pub IsValid : Tx → Type 0
IsValid (change_key_state s old new) = transition_valid old new ≡ true
IsValid (set_keys _ _ _ _) = ⊥
IsValid _ = Unit

abbrev pub AllValid : List Tx → Type 0
AllValid [] = Unit
AllValid (tx ∷ log) = IsValid tx × AllValid log

-- A key whose state and seqnum are as the write leaves them.
update-Advances :
    (s : ℕ) (f : Key → Key) (ks : List Key) (k0 : Key)
    → key_with_seqnum s ks ≡ some k0
    → (f k0).seqnum ≡ s
    → History k0.state (f k0).state
    → (t : ℕ) (k : Key) → key_with_seqnum t ks ≡ some k
    → (k' : Key) × (key_with_seqnum t (update_key s f ks) ≡ some k') × History k.state k'.state
update-Advances s f ks k0 found keeps past t k h = elim (Bool-cases (s == t)) [
  | inl same ↦
      let e : s ≡ t = (==_iff s t).0 same in
      let is_k0 : k0 ≡ k = cc (found, h, e) in
      (f k0, rw (← e) (key_with_seqnum-update_key s f keeps ks found), rw (← is_k0) past)
  | inr other ↦ (k, key_with_seqnum-update_key_ne s f keeps t ks found other ∙ h, here)
]

key_with_seqnum-append :
    (t : ℕ) (ks : List Key) (new : Key)
    → (new.seqnum == t) ≡ false
    → key_with_seqnum t (ks ++ new ∷ []) ≡ key_with_seqnum t ks
unfolding key_with_seqnum
key_with_seqnum-append t [] new h = ground arith
key_with_seqnum-append t (k ∷ ks) new h = rw (key_with_seqnum-append t ks new h)

-- the keys that an applied transaction leaves, by what it found
set_key_current-keys :
    (old new : ℕ) (r : RingData) {tx' : Tx} {r' : RingData}
    → apply (set_key_current old new) r ≡ ok (tx', r')
    → r'.keys ≡ r.keys
unfolding apply
set_key_current-keys old new r {tx'} {r'} h = ground arith

pub add_key-keys :
    (new : Key) (r : RingData) {tx' : Tx} {r' : RingData}
    → apply (add_key new) r ≡ ok (tx', r')
    → (key_with_seqnum new.seqnum r.keys ≡ none) × (r'.keys ≡ r.keys ++ new ∷ [])
unfolding apply
add_key-keys new r {tx'} {r'} h = ground arith

pub change_key_state-keys :
    (s old new : ℕ) (r : RingData) {tx' : Tx} {r' : RingData}
    → apply (change_key_state s old new) r ≡ ok (tx', r')
    → (k : Key) × (key_with_seqnum s r.keys ≡ some k)
      × (k.state ≡ old)
      × (r'.keys ≡ update_key s (set_state new) r.keys)
unfolding apply
change_key_state-keys s old new r {tx'} {r'} h = elim (Option-cases (key_with_seqnum s r.keys)) [
  | inl (k, e) ↦ (k, e, ground arith, ground arith)
  | inr e ↦ absurd (ground arith)
]

pub destroy_key_data-keys :
    (s : ℕ) (backup : List KeyData) (r : RingData) {tx' : Tx} {r' : RingData}
    → apply (destroy_key_data s backup) r ≡ ok (tx', r')
    → (k : Key) × (key_with_seqnum s r.keys ≡ some k)
      × (r'.keys ≡ update_key s (set_data []) r.keys)
unfolding apply
destroy_key_data-keys s backup r {tx'} {r'} h = elim (Option-cases (key_with_seqnum s r.keys)) [
  | inl (k, e) ↦ (k, e, ground arith)
  | inr e ↦ absurd (ground arith)
]

same_keys-Advances : (r r' : RingData) → r'.keys ≡ r.keys → Advances r r'
same_keys-Advances r r' e = record { at = λ t k h. (k, rw e h, here) }

apply-Advances :
    (tx : Tx) (r : RingData) {tx' : Tx} {r' : RingData}
    → IsValid tx
    → apply tx r ≡ ok (tx', r')
    → Advances r r'
apply-Advances (set_key_current old new) r {tx'} {r'} v h =
    same_keys-Advances r r' (set_key_current-keys old new r h)
apply-Advances (change_key_state s old new) r v h =
    let (k0, found, is_old, e) = change_key_state-keys s old new r h in
    record {
      at = λ t k at. rw e (
          update-Advances s (set_state new) r.keys k0 found (key_with_seqnum-seqnum s r.keys found)
            (next here (rw is_old v)) t k at);
    }
apply-Advances (add_key new) r v h =
    let (fresh, e) = add_key-keys new r h in
    record {
      at = λ t k at. elim (Bool-cases (new.seqnum == t)) [
        | inl same ↦ absurd (ground (arith, fresh, at, same))
        | inr other ↦ (k, rw e (key_with_seqnum-append t r.keys new other ∙ at), here)
      ];
    }
apply-Advances (set_keys _ _ _ _) r v h = absurd v
apply-Advances (destroy_key_data s backup) r v h =
    let (k0, found, e) = destroy_key_data-keys s backup r h in
    record {
      at = λ t k at. rw e (
          update-Advances s (set_data []) r.keys k0 found (key_with_seqnum-seqnum s r.keys found)
            here t k at);
    }

pub roll_back_all-ne-applied :
    (e : KeyError) (past log log' : List Tx) (r after : RingData)
    → roll_back_all e past log r ≡ applied log' after
    → ⊥
unfolding roll_back_all
roll_back_all-ne-applied e [] log log' r after h = cc
roll_back_all-ne-applied e (tx ∷ past) log log' r after h = elim (Outcome-cases (rollback tx r)) [
  | inl ((tx', r'), p) ↦
      roll_back_all-ne-applied e past (tx' ∷ log) log' r' after (rw (p, roll_back_all) at h)
  | inr (inl (e', p)) ↦
      roll_back_all-ne-applied e past (tx ∷ log) log' r after (rw (p, roll_back_all) at h)
  | inr (inr p) ↦ absurd (ground arith)
]

-- A log of valid transactions that is applied as a whole moves every key along its life cycle.
pub apply_from-Advances :
    (past todo : List Tx) (r : RingData) {log : List Tx} {after : RingData}
    → AllValid todo
    → apply_from past todo r ≡ applied log after
    → Advances r after
unfolding apply_from
apply_from-Advances past [] r {log} {after} v h = same_keys-Advances r after (ground arith)
apply_from-Advances past (tx ∷ rest) r {log} {after} (v, vs) h = elim (Outcome-cases (apply tx r)) [
  | inl ((tx', r'), e) ↦
      Advances-trans (apply-Advances tx r v e)
        (apply_from-Advances (tx' ∷ past) rest r' vs (rw (e, apply_from) at h))
  | inr (inl (e', e)) ↦
      absurd (roll_back_all-ne-applied e' past (tx ∷ rest) log r after (rw (e, apply_from) at h))
  | inr (inr e) ↦ absurd (ground arith)
]
