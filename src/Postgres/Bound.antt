-- ===== src/Postgres/Bound.antt =====
-- The values of the parameters of a Bind packet: GetParameters and SetParameters of
-- decryptor/postgresql/utils.go, with the data and the format of a pgBoundValue.
pub mod Kept
use acra.Base.{
  ℕ, suc, ◌≡◌, Bool, true, false, ◌&&◌, Option, List, [], ◌∷◌, map, Bytes, if◌then◌else◌,
}
use acra.Base.Outcome.{Outcome, ok, err, panic, ◌>>=◌}
use acra.Wire.{WireError}
use acra.Postgres.Messages.{BindPacket}
use acra.Postgres.Rows.{
  BoundValueFormat, text_format, binary_format, format_code, get_parameter_format_by_index,
}

-- `pgBoundValue`
pub record BoundValue : Type 0 where
  pub content : Option Bytes
  pub format : BoundValueFormat

-- the loop of `GetParameters`, from an index on
unfoldable pub get_parameters_from :
    List ℕ → ℕ → List (Option Bytes) → Outcome WireError (List BoundValue)
unfolding get_parameter_format_by_index
get_parameters_from formats i [] = ok []
get_parameters_from formats i (v ∷ vs) = do
  format ← get_parameter_format_by_index i formats
  values ← get_parameters_from formats (suc i) vs
  ok (record { content = v; format = format } ∷ values)

-- `GetParameters`
unfoldable pub get_parameters : BindPacket → Outcome WireError (List BoundValue)
unfolding get_parameters_from
get_parameters p = get_parameters_from p.param_formats 0 p.param_values

abbrev pub is_same_format : BoundValueFormat → BoundValueFormat → Bool
is_same_format text_format text_format = true
is_same_format binary_format binary_format = true
is_same_format _ _ = false

-- the search of `SetParameters` for another format
abbrev pub all_same : BoundValueFormat → List BoundValue → Bool
all_same format [] = true
all_same format (v ∷ vs) = is_same_format v.format format && all_same format vs

abbrev pub format_codes : List BoundValue → List ℕ
format_codes [] = []
format_codes (v ∷ vs) = format_code v.format ∷ format_codes vs

abbrev pub contents : List BoundValue → List (Option Bytes)
contents [] = []
contents (v ∷ vs) = v.content ∷ contents vs

-- `SetParameters`, of values whose data is had without an error
unfoldable pub set_parameters : List BoundValue → BindPacket → BindPacket
set_parameters [] p = record p { param_formats = [] }
set_parameters (v ∷ vs) p = record p {
  param_formats = if all_same v.format vs then format_code v.format ∷ [] else format_codes (v ∷ vs);
  param_values = contents (v ∷ vs);
}
