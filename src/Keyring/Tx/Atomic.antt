-- ===== src/Keyring/Tx/Atomic.antt =====
-- `applyPendingTX` is all or nothing.
use acra.Base.{◌≡◌, refl, List, [], ◌∷◌, arith, inl, inr}
use acra.Base.Outcome.{ok, panic, Outcome-cases}
use acra.Keyring.Data.{RingData}
use acra.Keyring.Errors.{KeyError}
use acra.Keyring.Tx.{
  Tx, apply, rollback, Applied, applied, rejected, crashed, roll_back_all, apply_from,
  apply_pending,
}
use acra.Keyring.Tx.Undo.{spent, rollback-apply}

-- Each of the applied transactions, the last one first, is undone by its rollback, down to `r`.
pub data Undoable (r : RingData) : List Tx → RingData → Type 0 where
  none_left : Undoable r [] r
  one_more :
      {tx : Tx} {past : List Tx} {before after : RingData}
      → rollback tx after ≡ ok (spent tx, before)
      → Undoable r past before
      → Undoable r (tx ∷ past) after

-- Either everything was applied, or the data is `r` again; there is no panic.
abbrev pub AllOrNothing : RingData → Applied → Type 0
AllOrNothing r (applied log after) = Unit
AllOrNothing r (rejected e log after) = after ≡ r
AllOrNothing r crashed = ⊥

roll_back_all-Undoable :
    {r after : RingData} {past : List Tx} (e : KeyError) (log : List Tx)
    → Undoable r past after
    → AllOrNothing r (roll_back_all e past log after)
unfolding roll_back_all
roll_back_all-Undoable e log none_left = refl
roll_back_all-Undoable e log (one_more {tx} undo u) =
    rw (undo, roll_back_all) (roll_back_all-Undoable e (spent tx ∷ log) u)

apply-ne-panic : (tx : Tx) (r : RingData) → apply tx r ≡ panic → ⊥
unfolding apply
apply-ne-panic tx r h = ground arith

apply_from-AllOrNothing :
    {r after : RingData} {past : List Tx} (todo : List Tx)
    → Undoable r past after
    → AllOrNothing r (apply_from past todo after)
unfolding apply_from
apply_from-AllOrNothing [] u = tt
apply_from-AllOrNothing {r} {after} {past} (tx ∷ rest) u = elim (Outcome-cases (apply tx after)) [
  | inl ((tx', r'), e) ↦
      rw (e, apply_from) (apply_from-AllOrNothing rest (one_more (rollback-apply tx after e) u))
  | inr (inl (e', e)) ↦ rw (e, apply_from) (roll_back_all-Undoable e' (tx ∷ rest) u)
  | inr (inr e) ↦ absurd (apply-ne-panic tx after e)
]

-- If a pending transaction is refused, the data of the ring is what it was before the first of
-- them, whatever the log holds; and no log makes `applyPendingTX` panic.
pub apply_pending-AllOrNothing :
    (log : List Tx) (r : RingData) → AllOrNothing r (apply_pending log r)
apply_pending-AllOrNothing log r = apply_from-AllOrNothing log none_left
