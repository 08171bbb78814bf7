-- ===== src/Keyring/Disk.antt =====
-- The back end that keeps the files of the key store: keystore/v2/keystore/filesystem/backend/
-- memory.go, with the failures that the interface `Backend` (backend/api/backend.go) allows. Paths
-- are in the form that `pathSeparators.Replace` gives them.
use acra.Base.{Option, none, some, Bytes}
use acra.Base.Dict
use acra.Base.Dict.{Dict, lookup, insert}
use acra.Base.Outcome.{Outcome, ok, err}
use acra.Keyring.Errors.{KeyError, path_not_exist, path_exist}

abbrev pub Disk : Type 0
Disk = Dict Bytes

-- Which calls fail in a run, and with what error; a call that fails changes nothing.
pub record Faults : Type 0 where
  pub lock : Option KeyError
  pub unlock : Option KeyError
  pub get : Option KeyError
  pub put : Option KeyError
  pub rename : Option KeyError

abbrev pub no_faults : Faults
no_faults = record { lock = none; unlock = none; get = none; put = none; rename = none }

unfoldable pub get_file : Faults → Bytes → Disk → Outcome KeyError Bytes
get_file f path disk = elim f.get [
  | some e ↦ err e
  | none ↦ elim (lookup path disk) [ none ↦ err path_not_exist | some content ↦ ok content ]
]

unfoldable pub put_file : Faults → Bytes → Bytes → Disk → Outcome KeyError Disk
put_file f path content disk = elim f.put [
  | some e ↦ err e
  | none ↦ elim (lookup path disk) [
    | some old ↦ err path_exist
    | none ↦ ok (insert path content disk)
  ]
]

unfoldable pub rename_file : Faults → Bytes → Bytes → Disk → Outcome KeyError Disk
rename_file f old_path new_path disk = elim f.rename [
  | some e ↦ err e
  | none ↦ elim (lookup old_path disk) [
    | none ↦ err path_not_exist
    | some content ↦ ok (insert new_path content (Dict.delete old_path disk))
  ]
]
