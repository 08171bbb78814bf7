-- ===== src/Base/Decimal.antt =====
-- Numbers in decimal, as strconv and `%d` write and read them: `FormatInt` and `ParseInt` at base 10
-- and 64 bits. A Go `int64` is its 64-bit pattern.
use Prim.Native.Nat.{ℕ, zero, suc, ◌+◌, ◌-◌, ◌*◌, ◌/◌, ◌%◌, ◌^◌, ◌≤◌, ◌<◌}
use mathlib.Core.Path.{◌≡◌, refl, ap, ◌∙◌}
use mathlib.Core.Bool.{true, false, ◌&&◌}
use mathlib.Core.Logic.{inl, inr}
use mathlib.Core.Option.{Option, none, some}
use mathlib.Core.List.{[], ◌∷◌}
use native.Mathlib.Omega.{arith}
use acra.Base.Tests.{if◌then◌else◌, ◌==◌, ltb, leb, ==_iff, Bool-cases, ne→==}
use acra.Base.Lists.{Bytes}
use acra.Base.Words.{is_negative}

-- the digits of a number below 10 ^ fuel, in front of `rest`
digits_onto : ℕ → ℕ → Bytes → Bytes
digits_onto zero n rest = rest
digits_onto (suc fuel) n rest =
    let more = digits_onto fuel (n / 10) ((48 + n % 10) ∷ rest) in
    if n / 10 == 0 then (48 + n % 10) ∷ rest else more

-- `%d`: 20 digits are enough for 64 bits
unfoldable pub decimal : ℕ → Bytes
unfolding digits_onto
decimal n =
    if is_negative n
    then b'-' ∷ digits_onto 20 (0x10000000000000000 - n) []
    else digits_onto 20 n []

-- the number that the digits write behind the number read so far
parse_digits : ℕ → Bytes → Option ℕ
parse_digits n [] = some n
parse_digits n (c ∷ cs) =
    let rest = parse_digits (n * 10 + (c - 48)) cs in if leb 48 c && leb c 57 then rest else none

-- at least one digit
parse_digits1 : Bytes → Option ℕ
unfolding parse_digits
parse_digits1 [] = none
parse_digits1 (c ∷ cs) = parse_digits 0 (c ∷ cs)

abbrev positive : Option ℕ → Option ℕ
positive none = none
positive (some n) = if is_negative n then none else some n

abbrev negative : Option ℕ → Option ℕ
negative none = none
negative (some n) =
    if ltb 0x8000000000000000 n then none else some ((0x10000000000000000 - n) % 2 ^ 64)

-- `strconv.ParseInt(text, 10, 64)`; both of its errors are `none`
unfoldable pub parse_int : Bytes → Option ℕ
unfolding parse_digits1
parse_int [] = none
parse_int (c ∷ cs) =
    if c == b'-'
    then negative (parse_digits1 cs)
    else if c == b'+'
    then positive (parse_digits1 cs)
    else positive (parse_digits1 (c ∷ cs))

power : ℕ → ℕ
power zero = 1
power (suc k) = 10 * power k

parse_digits-digit :
    (n d : ℕ) (rest : Bytes)
    → d < 10
    → parse_digits n ((48 + d) ∷ rest) ≡ parse_digits (n * 10 + d) rest
unfolding parse_digits
parse_digits-digit n d rest h =
    let e : n * 10 + ((48 + d) - 48) ≡ n * 10 + d = omega arith in
    let low : leb 48 (48 + d) ≡ true = ground arith in
    let high : leb (48 + d) 57 ≡ true = ground arith in
    rw (low, high) (ap (λ (m : ℕ). parse_digits m rest) e)

parse_digits-digits_onto :
    (fuel n : ℕ) (rest : Bytes)
    → n < power fuel
    → parse_digits 0 (digits_onto fuel n rest) ≡ parse_digits n rest
unfolding digits_onto power
parse_digits-digits_onto zero n rest h = ap (λ (m : ℕ). parse_digits m rest) (omega arith)
parse_digits-digits_onto (suc fuel) n rest h =
    let last = parse_digits-digit (n / 10) (n % 10) rest (omega arith) in
    let whole : parse_digits (n / 10 * 10 + n % 10) rest ≡ parse_digits n rest =
      ap (λ (m : ℕ). parse_digits m rest) (omega arith) in
    elim (Bool-cases (n / 10 == 0)) [
      | inl e ↦ rw e (
          parse_digits-digit 0 (n % 10) rest (omega arith)
          ∙ ap (λ (m : ℕ). parse_digits m rest) (omega (arith, (==_iff (n / 10) 0).0 e)))
      | inr e ↦ rw e (
          parse_digits-digits_onto fuel (n / 10) ((48 + n % 10) ∷ rest) (omega arith)
          ∙ last
          ∙ whole)
    ]

-- what starts with a digit
abbrev Leads : Bytes → Type 0
Leads [] = ⊥
Leads (c ∷ cs) = 48 ≤ c

digits_onto-Leads : (fuel n : ℕ) (rest : Bytes) → Leads rest → Leads (digits_onto fuel n rest)
unfolding digits_onto
digits_onto-Leads zero n rest h = h
digits_onto-Leads (suc fuel) n rest h =
    let lead : 48 ≤ 48 + n % 10 = omega arith in
    elim (Bool-cases (n / 10 == 0)) [
      | inl e ↦ rw e lead
      | inr e ↦ rw e (digits_onto-Leads fuel (n / 10) ((48 + n % 10) ∷ rest) lead)
    ]

digits_onto-start : (fuel n : ℕ) → Leads (digits_onto (suc fuel) n [])
unfolding digits_onto
digits_onto-start fuel n =
    let lead : 48 ≤ 48 + n % 10 = omega arith in
    elim (Bool-cases (n / 10 == 0)) [
      | inl e ↦ rw e lead
      | inr e ↦ rw e (digits_onto-Leads fuel (n / 10) ((48 + n % 10) ∷ []) lead)
    ]

parse_digits1-Leads : (cs : Bytes) → Leads cs → parse_digits1 cs ≡ parse_digits 0 cs
unfolding parse_digits1
parse_digits1-Leads [] h = absurd h
parse_digits1-Leads (c ∷ cs) h = refl

parse_int-Leads : (cs : Bytes) → Leads cs → parse_int cs ≡ positive (parse_digits 0 cs)
unfolding parse_int
parse_int-Leads [] h = absurd h
parse_int-Leads (c ∷ cs) h =
    let minus : (c == b'-') ≡ false = ne→== c b'-' (λ e. (omega (arith, e, h))) in
    let plus : (c == b'+') ≡ false = ne→== c b'+' (λ e. (omega (arith, e, h))) in
    rw (minus, plus) refl

parse_digits-digits : (n : ℕ) → n < 2 ^ 64 → parse_digits 0 (digits_onto 20 n []) ≡ some n
unfolding power parse_digits
parse_digits-digits n h = parse_digits-digits_onto 20 n [] (omega arith)

negative-some :
    (n : ℕ) → is_negative n ≡ true → n < 2 ^ 64 → negative (some (0x10000000000000000 - n)) ≡ some n
negative-some n e h =
    let small : ltb 0x8000000000000000 (0x10000000000000000 - n) ≡ false = ground arith in
    rw small (ap some (omega arith))

-- `ParseInt` reads back what `FormatInt` wrote, for every 64-bit pattern.
pub parse_int-decimal : (n : ℕ) → n < 2 ^ 64 → parse_int (decimal n) ≡ some n
unfolding decimal parse_int
parse_int-decimal n h = elim (Bool-cases (is_negative n)) [
  | inl e ↦ rw e (
      ap negative (
        parse_digits1-Leads (digits_onto 20 (0x10000000000000000 - n) [])
          (digits_onto-start 19 (0x10000000000000000 - n))
        ∙ parse_digits-digits (0x10000000000000000 - n) (ground arith))
      ∙ negative-some n e h)
  | inr e ↦ rw e (
      parse_int-Leads (digits_onto 20 n []) (digits_onto-start 19 n)
      ∙ rw (parse_digits-digits n h) (rw e refl))
]

positive_bound : (o : Option ℕ) (n : ℕ) → positive o ≡ some n → n < 2 ^ 64
positive_bound none n h = absurd cc
positive_bound (some m) n h = ground arith

negative_bound : (o : Option ℕ) (n : ℕ) → negative o ≡ some n → n < 2 ^ 64
negative_bound none n h = absurd cc
negative_bound (some m) n h = ground arith

pub parse_int_bound : (d : Bytes) (n : ℕ) → parse_int d ≡ some n → n < 2 ^ 64
unfolding parse_int
parse_int_bound [] n h = absurd cc
parse_int_bound (c ∷ cs) n h = elim (Bool-cases (c == b'-')) [
  | inl e ↦ negative_bound (parse_digits1 cs) n (rw e at h)
  | inr e ↦ elim (Bool-cases (c == b'+')) [
    | inl f ↦ positive_bound (parse_digits1 cs) n (rw f at (rw e at h))
    | inr f ↦ positive_bound (parse_digits1 (c ∷ cs)) n (rw f at (rw e at h))
  ]
]
