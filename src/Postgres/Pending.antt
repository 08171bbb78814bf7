-- ===== src/Postgres/Pending.antt =====
-- The packets that wait for their answer, by type: decryptor/postgresql/pending_packets.go. A map from
-- types to lists is a function; a type has no list until a packet of it was added.
use acra.Base.{Bool, true, false, Option, none, some, List, [], ◌∷◌, ◌++◌, if◌then◌else◌}
use acra.Base.Outcome.{Outcome, ok, err}

-- The types that the list takes, and any other.
pub data PendingType : Type 0 where
  parse bind execute row_description parameter_description query : PendingType
  unsupported : PendingType

pub data PendingError : Type 0 where
  unsupported_pending_packet_type remove_from_empty_pending_list : PendingError

abbrev pub same_type : PendingType → PendingType → Bool
same_type parse parse = true
same_type bind bind = true
same_type execute execute = true
same_type row_description row_description = true
same_type parameter_description parameter_description = true
same_type query query = true
same_type unsupported unsupported = true
same_type _ _ = false

abbrev pub is_supported : PendingType → Bool
is_supported unsupported = false
is_supported _ = true

abbrev pub PendingPacketsList : Type 0 → Type 0
PendingPacketsList P = PendingType → Option (List P)

module _ {P : Type 0} where
  -- `newPendingPacketsList P`
  abbrev pub new_pending_packets_list : PendingPacketsList P
  new_pending_packets_list t = none

  abbrev pub replaced : PendingType → List P → PendingPacketsList P → PendingPacketsList P
  replaced t packets lists u = if same_type t u then some packets else lists u

  -- the list of a type, made where there is none
  abbrev pub packets_of : Option (List P) → List P
  packets_of none = []
  packets_of (some packets) = packets

  abbrev pub front : List P → Option P
  front [] = none
  front (p ∷ ps) = some p

  abbrev pub back : List P → Option P
  back [] = none
  back (p ∷ []) = some p
  back (p ∷ q ∷ ps) = back (q ∷ ps)

  abbrev pub behind : List P → List P
  behind [] = []
  behind (p ∷ ps) = ps

  -- `Add`
  unfoldable pub add :
      PendingType
      → P
      → PendingPacketsList P
      → PendingPacketsList P × Outcome PendingError (Unit {0})
  add t p lists =
      if is_supported t
      then (replaced t (packets_of (lists t) ++ p ∷ []) lists, ok tt)
      else (lists, err unsupported_pending_packet_type)

  -- `RemoveNextPendingPacket`: an error only where there never was a packet of the type
  unfoldable pub remove_next_pending_packet :
      PendingType → PendingPacketsList P → PendingPacketsList P × Outcome PendingError (Unit {0})
  remove_next_pending_packet t lists =
      if is_supported t
      then elim (lists t) [
        | none ↦ (lists, err remove_from_empty_pending_list)
        | some packets ↦ (replaced t (behind packets) lists, ok tt)
      ]
      else (lists, err unsupported_pending_packet_type)

  -- `RemoveAll`
  unfoldable pub remove_all :
      PendingType → PendingPacketsList P → PendingPacketsList P × Outcome PendingError (Unit {0})
  remove_all t lists =
      if is_supported t
      then elim (lists t) [ none ↦ (lists, ok tt) | some packets ↦ (replaced t [] lists, ok tt) ]
      else (lists, err unsupported_pending_packet_type)

  -- `GetPendingPacket`
  unfoldable pub get_pending_packet :
      PendingType → PendingPacketsList P → Outcome PendingError (Option P)
  get_pending_packet t lists =
      if is_supported t
      then ok (front (packets_of (lists t)))
      else err unsupported_pending_packet_type

  -- `GetLastPending`
  unfoldable pub get_last_pending :
      PendingType → PendingPacketsList P → Outcome PendingError (Option P)
  get_last_pending t lists =
      if is_supported t
      then ok (back (packets_of (lists t)))
      else err unsupported_pending_packet_type
