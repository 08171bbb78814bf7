-- ===== src/Postgres/Packet.antt =====
-- The packets of a client: decryptor/postgresql/packet_handler.go. A reader is the bytes that it
-- still gives. An error or a panic ends the connection, so no state is kept with it.
pub mod Transparent
pub mod Crash
pub mod Replaced
pub mod Exchanged
use acra.Base.{
  ℕ, ◌+◌, ◌-◌, ◌%◌, ◌≡◌, Bool, true, false, ◌||◌, ◌&&◌, List, [], ◌∷◌, ◌++◌, Bytes, ◌==◌,
  if◌then◌else◌, ltb, length, take, drop, get_or, replicate, copy_at, bytes_eq,
}
use acra.Base.Words.{is_negative, word_mod}
use acra.Base.Outcome.{Outcome, ok, err, panic, ◌>>=◌}
use acra.Postgres.Messages.{new_parse_packet, replace_query, marshal_parse, parse_length}
use acra.Wire.{WireError, unsupported_packet_type, eof, read_full, be_bytes, be_value}

-- `ColumnData`; a nil slice of data is empty.
pub record ColumnData : Type 0 where
  pub length_buf : Bytes
  pub content : Bytes
  pub changed : Bool
  pub is_null : Bool

pub record PacketHandler : Type 0 where
  pub message_type : ℕ
  pub description_length_buf : Bytes
  pub description_buf : Bytes
  pub column_count : ℕ
  -- an `int`
  pub data_length : ℕ
  pub columns : List ColumnData
  pub terminate_packet : Bool
  pub started : Bool

-- `newPacketHandlerWithLogger`
abbrev pub new_packet_handler : PacketHandler
new_packet_handler = record {
  message_type = 0;
  description_length_buf = replicate 4 0;
  description_buf = [];
  column_count = 0;
  data_length = 0;
  columns = [];
  terminate_packet = false;
  started = false;
}

-- `Reset`
abbrev pub reset : PacketHandler → PacketHandler
reset p = record p {
  message_type = 0;
  description_buf = [];
  column_count = 0;
  data_length = 0;
  columns = [];
}

-- the difference of two `int`s
abbrev pub int_sub : ℕ → ℕ → ℕ
int_sub a b = (a + (word_mod - b)) % word_mod

-- `setDataLengthBuffer`
abbrev pub set_data_length_buffer : Bytes → PacketHandler → PacketHandler
set_data_length_buffer buf p = record p {
  description_length_buf = copy_at 0 buf p.description_length_buf;
  data_length = int_sub (be_value buf) (length buf);
}

-- `readData(false)`: `Grow` panics on a negative length, and `io.CopyN` needs all of it.
unfoldable pub read_data : PacketHandler → Bytes → Outcome WireError (PacketHandler × Bytes)
read_data p stream =
    if is_negative p.data_length
    then panic
    else if ltb (length stream) p.data_length
    then err eof
    else ok (
      record p { description_buf = p.description_buf ++ take p.data_length stream },
      drop p.data_length stream,
    )

abbrev pub startup_request : Bytes
startup_request = 0 ∷ 3 ∷ 0 ∷ 0 ∷ []

-- `SSLRequestHeader`, `CancelRequestHeader` and `GSSENCRequestHeader`
abbrev pub ssl_request_header : Bytes
ssl_request_header = 0 ∷ 0 ∷ 0 ∷ 8 ∷ 4 ∷ 210 ∷ 22 ∷ 47 ∷ []

abbrev pub cancel_request_header : Bytes
cancel_request_header = 0 ∷ 0 ∷ 0 ∷ 16 ∷ 4 ∷ 210 ∷ 22 ∷ 46 ∷ []

abbrev pub gssenc_request_header : Bytes
gssenc_request_header = 0 ∷ 0 ∷ 0 ∷ 8 ∷ 4 ∷ 210 ∷ 22 ∷ 48 ∷ []

-- the switch of `readStartupPacket`
unfoldable pub is_startup : Bytes → Bool
unfolding bytes_eq
is_startup header =
    bytes_eq startup_request (drop 4 header)
    || bytes_eq ssl_request_header header
    || bytes_eq cancel_request_header header
    || bytes_eq gssenc_request_header header

-- the end of `readStartupPacket`
abbrev pub mark_started : PacketHandler → PacketHandler
mark_started p = record p { data_length = (p.data_length + 4) % word_mod; started = true }

-- `readStartupPacket`, behind its first read
unfoldable pub startup_packet :
    PacketHandler → Bytes → Bytes → Outcome WireError (PacketHandler × Bytes)
unfolding is_startup read_data
startup_packet p header rest =
    if is_startup header
    then (let sized = set_data_length_buffer (take 4 header) p in
        let tagged = record sized {
          description_buf = sized.description_buf ++ drop 4 header;
          data_length = int_sub sized.data_length 4;
        } in
        read_data tagged rest >>= λ (p', rest'). ok (mark_started p', rest'))
    else err unsupported_packet_type

unfoldable pub read_startup_packet :
    PacketHandler → Bytes → Outcome WireError (PacketHandler × Bytes)
unfolding read_full startup_packet
read_startup_packet p stream = do
  (header, rest) ← read_full 8 stream
  startup_packet (reset p) header rest

abbrev pub terminate_packet_bytes : Bytes
terminate_packet_bytes = b'X' ∷ 0 ∷ 0 ∷ 0 ∷ 4 ∷ []

-- `readGeneralPacket`, behind its first read; an unknown tag is only logged
unfoldable pub general_packet :
    PacketHandler → Bytes → Bytes → Outcome WireError (PacketHandler × Bytes)
unfolding read_data bytes_eq
general_packet p header rest =
    let tag = get_or header 0 0 in
    let sized = set_data_length_buffer (drop 1 header) (record p { message_type = tag }) in
    if tag == b'X'
    then (let last = record sized { terminate_packet = true } in
        if bytes_eq terminate_packet_bytes header then ok (last, rest) else read_data last rest)
    else read_data sized rest

unfoldable pub read_general_packet :
    PacketHandler → Bytes → Outcome WireError (PacketHandler × Bytes)
unfolding read_full general_packet
read_general_packet p stream = do
  (header, rest) ← read_full 5 stream
  general_packet (reset p) header rest

-- `ReadClientPacket`
unfoldable pub read_client_packet :
    PacketHandler → Bytes → Outcome WireError (PacketHandler × Bytes)
unfolding read_startup_packet read_general_packet
read_client_packet p stream =
    if p.started then read_general_packet p stream else read_startup_packet p stream

-- `Marshal`
unfoldable pub marshal : PacketHandler → Bytes
marshal p =
    (if p.message_type == 0 then [] else p.message_type ∷ [])
    ++ p.description_length_buf
    ++ p.description_buf

-- `updatePacketLength`
abbrev pub update_packet_length : ℕ → PacketHandler → PacketHandler
update_packet_length n p = record p { description_length_buf = be_bytes 4 (n + 4) }

-- `GetSimpleQuery` of a packet as it was read, whose buffer holds all of it: the query without its
-- terminator; the slice panics where the packet is empty.
unfoldable pub get_simple_query : PacketHandler → Outcome WireError Bytes
get_simple_query p =
    let end = int_sub p.data_length 1 in
    if is_negative end then panic else ok (take end p.description_buf)

-- `ReplaceQuery` of a simple query
unfoldable pub replace_simple_query : Bytes → PacketHandler → PacketHandler
replace_simple_query query p =
    update_packet_length (length query + 1) (record p { description_buf = query ++ 0 ∷ [] })

-- `ReplaceQuery` of a Parse packet: one that cannot be taken apart stays as it is.
unfoldable pub replace_parse_query : Bytes → PacketHandler → Outcome WireError PacketHandler
unfolding new_parse_packet replace_query marshal_parse parse_length
replace_parse_query query p = elim (new_parse_packet p.description_buf) [
  | err e ↦ ok p
  | panic ↦ panic
  | ok parse ↦
      let replaced = replace_query query parse in
      ok (
        update_packet_length (parse_length replaced)
          (record p { description_buf = marshal_parse replaced }))
]
