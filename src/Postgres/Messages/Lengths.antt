-- ===== src/Postgres/Messages/Lengths.antt =====
-- How long the arrays of a Bind packet are.
use acra.Base.{
  ℕ, ◌+◌, ◌*◌, ◌≡◌, refl, sym, List, [], ◌∷◌, Bytes, ltb, Bool-cases, inl, inr, length, Option,
  none, some, length-append, arith,
}
use acra.Base.Outcome.{ok, >>=-eq_ok, ok_injective}
use acra.Postgres.Messages.{
  BindPacket, write_items, write_uint16_array, write_parameter, write_parameters,
  write_parameter_array,
}

-- the length of the parts of a Bind packet
abbrev pub values_length : List (Option Bytes) → ℕ
values_length [] = 0
values_length (none ∷ vs) = 4 + values_length vs
values_length (some b ∷ vs) = 4 + length b + values_length vs

abbrev pub bind_length : BindPacket → ℕ
bind_length p =
    length p.portal
    + 1
    + length p.statement
    + 1
    + (2 + 2 * length p.param_formats)
    + (2 + values_length p.param_values)
    + (2 + 2 * length p.result_formats)

length-write_items : (values : List ℕ) → length (write_items values) ≡ 2 * length values
length-write_items [] = refl
length-write_items (v ∷ vs) = omega (arith, length-write_items vs)

pub length-write_uint16_array :
    (values : List ℕ) {out : Bytes}
    → write_uint16_array values ≡ ok out
    → length out ≡ 2 + 2 * length values
unfolding write_uint16_array
length-write_uint16_array values h = ground (arith, length-write_items values)

length-write_parameters :
    (values : List (Option Bytes)) {out : Bytes}
    → write_parameters values ≡ ok out
    → length out ≡ values_length values
unfolding write_parameters write_parameter
length-write_parameters [] h = rw (sym (ok_injective h)) refl
length-write_parameters (none ∷ vs) h =
    let (bs, more, made) = >>=-eq_ok (write_parameters vs) _ h in
    rw (sym (ok_injective made)) (omega (arith, length-write_parameters vs more))
length-write_parameters (some b ∷ vs) h = elim (Bool-cases (ltb 0xffffffff (length b))) [
  | inl big ↦ let e = rw big at h in cc
  | inr fits ↦
      let (bs, more, made) = >>=-eq_ok (write_parameters vs) _ (rw fits at h) in
      rw (sym (ok_injective made))
        (omega (arith, length-write_parameters vs more, length-append b bs))
]

pub length-write_parameter_array :
    (values : List (Option Bytes)) {out : Bytes}
    → write_parameter_array values ≡ ok out
    → length out ≡ 2 + values_length values
unfolding write_parameter_array
length-write_parameter_array values h = elim (Bool-cases (ltb 0xffff (length values))) [
  | inl big ↦ let e = rw big at h in cc
  | inr fits ↦
      let (bs, more, made) = >>=-eq_ok (write_parameters values) _ (rw fits at h) in
      rw (sym (ok_injective made)) (omega (arith, length-write_parameters values more))
]
