-- ===== src/Keyring/State.antt =====
-- The life cycle of a key: `KeyState` and `KeyStateTransitionValid` of
-- keystore/v2/keystore/api/key.go. A state is its ASN.1 code, since a loaded ring may hold any.
use acra.Base.{ℕ, ◌≤◌, ◌≡◌, Bool, true, false, ◌||◌, ◌==◌, ◌⊎◌, if◌then◌else◌, arith}

abbrev pub KeyState : Type 0
KeyState = ℕ

abbrev pub pre_active : KeyState
pre_active = 1

abbrev pub active : KeyState
active = 2

abbrev pub suspended : KeyState
suspended = 3

abbrev pub deactivated : KeyState
deactivated = 4

abbrev pub compromised : KeyState
compromised = 5

abbrev pub destroyed : KeyState
destroyed = 6

unfoldable pub transition_valid : KeyState → KeyState → Bool
transition_valid old_state new_state =
    if old_state == pre_active
    then new_state == active
      || new_state == deactivated
      || new_state == compromised
      || new_state == destroyed
    else if old_state == active
    then new_state == suspended || new_state == deactivated || new_state == compromised
    else if old_state == suspended
    then new_state == active || new_state == deactivated || new_state == compromised
    else if old_state == deactivated
    then new_state == compromised || new_state == destroyed
    else if old_state == compromised
    then new_state == destroyed
    else false

-- A key's history under valid transitions, oldest state first.
pub data History (from : KeyState) : KeyState → Type 0 where
  here : History from from
  next :
      {state later : KeyState}
      → History from state
      → transition_valid state later ≡ true
      → History from later

-- How far a key is from use: a key in use may be suspended and resumed, and else moves on only.
abbrev pub stage : KeyState → ℕ
stage s =
    if s == pre_active
    then 0
    else if s == active || s == suspended
    then 1
    else if s == deactivated
    then 2
    else if s == compromised
    then 3
    else 4

transition_stage :
    (s t : KeyState)
    → transition_valid s t ≡ true
    → (stage s ≤ stage t) × ((stage s ≡ 1 → stage t ≤ 3) × (3 ≤ stage s → t ≡ destroyed))
unfolding transition_valid
transition_stage s t h = ground arith

-- Over any history of valid transitions, the stage of a key never goes back.
History-stage : {s t : KeyState} → History s t → stage s ≤ stage t
History-stage here = omega arith
History-stage (next {state} {later} h v) =
    omega (arith, History-stage h, (transition_stage state later v).0)

transition-compromised :
    (s t : KeyState)
    → transition_valid s t ≡ true
    → (s ≡ compromised) ⊎ (s ≡ destroyed)
    → (t ≡ compromised) ⊎ (t ≡ destroyed)
unfolding transition_valid
transition-compromised s t v h = ground arith

-- A compromised key stays compromised until it is destroyed, and a destroyed key stays destroyed.
pub History-compromised :
    {s t : KeyState}
    → History s t
    → (s ≡ compromised) ⊎ (s ≡ destroyed)
    → (t ≡ compromised) ⊎ (t ≡ destroyed)
History-compromised here d = d
History-compromised (next {state} {later} h v) d =
    transition-compromised state later v (History-compromised h d)

before_destroyed :
    (s t : KeyState)
    → transition_valid s t ≡ true
    → t ≡ destroyed
    → 1 ≤ stage s
    → (s ≡ deactivated) ⊎ (s ≡ compromised)
unfolding transition_valid
before_destroyed s t v e h = ground arith

-- A key that was in use (active or suspended) reaches the destroyed state only through the
-- deactivated or the compromised one.
pub History-destroyed :
    {s t : KeyState}
    → History s t
    → stage s ≡ 1
    → t ≡ destroyed
    → (u : KeyState) × History s u × ((u ≡ deactivated) ⊎ (u ≡ compromised))
History-destroyed here h e = absurd (ground arith)
History-destroyed (next {state} {later} past v) h e =
    (state, past, before_destroyed state later v e (omega (arith, History-stage past)))
