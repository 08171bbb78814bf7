-- ===== src/Postgres/Bound/Kept.antt =====
-- The values that a Bind packet is given are those that are read from it.
use acra.Base.{
  ℕ, suc, ◌≡◌, refl, sym, ap, ◌∙◌, Bool, true, false, some, List, [], ◌∷◌, ◌++◌, if◌then◌else◌, inl,
  inr, Bool-cases, length, get_elem?, append_assoc, arith, length-append, &&-eq_true,
}
use acra.Base.Outcome.{ok}
use acra.Postgres.Messages.{BindPacket}
use acra.Postgres.Rows.{
  BoundValueFormat, text_format, binary_format, format_code, known_format,
  get_parameter_format_by_index,
}
use acra.Postgres.Bound.{
  BoundValue, get_parameters_from, get_parameters, is_same_format, all_same, format_codes, contents,
  set_parameters,
}

known_format-code : (f : BoundValueFormat) → known_format (format_code f) ≡ ok f
known_format-code text_format = refl
known_format-code binary_format = refl

is_same_format-eq : (f g : BoundValueFormat) → is_same_format f g ≡ true → f ≡ g
is_same_format-eq text_format text_format h = refl
is_same_format-eq text_format binary_format h = cc
is_same_format-eq binary_format text_format h = cc
is_same_format-eq binary_format binary_format h = refl

-- one format stands for all values
get_parameters_from-one :
    (f : BoundValueFormat) (i : ℕ) (vs : List BoundValue)
    → all_same f vs ≡ true
    → get_parameters_from (format_code f ∷ []) i (contents vs) ≡ ok vs
unfolding get_parameters_from get_parameter_format_by_index
get_parameters_from-one f i [] h = refl
get_parameters_from-one f i (v ∷ vs) h =
    let (first, others) = &&-eq_true (is_same_format v.format f) (all_same f vs) h in
    rw (known_format-code f, get_parameters_from-one f (suc i) vs others)
      (ap (λ g. ok (record { content = v.content; format = g } ∷ vs))
        (sym (is_same_format-eq v.format f first)))

get_elem?-format_codes :
    (before : List BoundValue) (v : BoundValue) (vs : List BoundValue)
    → get_elem? (format_codes (before ++ v ∷ vs)) (length before) ≡ some (format_code v.format)
get_elem?-format_codes [] v vs = refl
get_elem?-format_codes (b ∷ before) v vs = get_elem?-format_codes before v vs

get_parameters_from-next :
    (formats : List ℕ) (i : ℕ) (v : BoundValue) (vs : List BoundValue)
    → get_parameter_format_by_index i formats ≡ ok v.format
    → get_parameters_from formats (suc i) (contents vs) ≡ ok vs
    → get_parameters_from formats i (contents (v ∷ vs)) ≡ ok (v ∷ vs)
unfolding get_parameters_from
get_parameters_from-next formats i v vs h k = rw (h, k, get_parameters_from) refl

format_by_index-at :
    (x y : ℕ) (l : List ℕ) (i : ℕ) {f : ℕ}
    → get_elem? (x ∷ y ∷ l) i ≡ some f
    → get_parameter_format_by_index i (x ∷ y ∷ l) ≡ known_format f
unfolding get_parameter_format_by_index
format_by_index-at x y l i h = rw (h, get_parameter_format_by_index) refl

-- with two values or more, each has its own
get_parameters_from-each :
    (a b : BoundValue) (l before vs : List BoundValue)
    → before ++ vs ≡ a ∷ b ∷ l
    → get_parameters_from (format_codes (a ∷ b ∷ l)) (length before) (contents vs) ≡ ok vs
unfolding get_parameters_from
get_parameters_from-each a b l before [] h = refl
get_parameters_from-each a b l before (v ∷ vs) h =
    let here : get_elem? (format_codes (a ∷ b ∷ l)) (length before) ≡ some (format_code v.format) =
      ap (λ z. get_elem? (format_codes z) (length before)) (sym h)
      ∙ get_elem?-format_codes before v vs in
    let next : length (before ++ v ∷ []) ≡ suc (length before) =
      omega (arith, length-append before (v ∷ [])) in
    get_parameters_from-next (format_codes (a ∷ b ∷ l)) (length before) v vs
      (format_by_index-at (format_code a.format) (format_code b.format) (format_codes l)
          (length before) here
        ∙ known_format-code v.format)
      (ap (λ n. get_parameters_from (format_codes (a ∷ b ∷ l)) n (contents vs)) (sym next)
        ∙ get_parameters_from-each a b l (before ++ v ∷ []) vs
            (append_assoc before (v ∷ []) vs ∙ h))

get_parameters_from-differing :
    (v : BoundValue) (vs : List BoundValue)
    → all_same v.format vs ≡ false
    → get_parameters_from (format_codes (v ∷ vs)) 0 (contents (v ∷ vs)) ≡ ok (v ∷ vs)
get_parameters_from-differing v [] h = cc
get_parameters_from-differing v (w ∷ vs) h = get_parameters_from-each v w vs [] (v ∷ w ∷ vs) refl

is_same_format_refl : (f : BoundValueFormat) → is_same_format f f ≡ true
is_same_format_refl text_format = refl
is_same_format_refl binary_format = refl

if-true : {A : Type 0} {b : Bool} (x y : A) → b ≡ true → (if b then x else y) ≡ x
if-true x y h = rw h refl

if-false : {A : Type 0} {b : Bool} (x y : A) → b ≡ false → (if b then x else y) ≡ y
if-false x y h = rw h refl

-- Values that a Bind packet is given, one or more of them, are read from it again, with their formats.
pub get_parameters-set_parameters :
    (v : BoundValue) (vs : List BoundValue) (p : BindPacket)
    → get_parameters (set_parameters (v ∷ vs) p) ≡ ok (v ∷ vs)
unfolding get_parameters set_parameters
get_parameters-set_parameters v vs p = elim (Bool-cases (all_same v.format vs)) [
  | inl same ↦
      ap (λ g. get_parameters_from g 0 (contents (v ∷ vs)))
        (if-true (format_code v.format ∷ []) (format_codes (v ∷ vs)) same)
      ∙ get_parameters_from-one v.format 0 (v ∷ vs) (rw (is_same_format_refl v.format, same) refl)
  | inr other ↦
      ap (λ g. get_parameters_from g 0 (contents (v ∷ vs)))
        (if-false (format_code v.format ∷ []) (format_codes (v ∷ vs)) other)
      ∙ get_parameters_from-differing v vs other
]
