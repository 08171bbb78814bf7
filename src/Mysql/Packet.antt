-- ===== src/Mysql/Packet.antt =====
-- The packets of MySQL: decryptor/mysql/packet.go. A connection is the bytes that it still gives; an
-- error ends it, so no state is kept with it.
pub mod Fragments
use acra.Base.{
  ℕ, zero, suc, ◌+◌, ◌%◌, ◌≡◌, Bool, true, false, ◌&&◌, ◌||◌, [], ◌∷◌, ◌++◌, Bytes, ◌==◌,
  if◌then◌else◌, ltb, leb, length, take, drop, get_or, replicate,
}
use acra.Base.Words.{le_bytes, le_value}
use acra.Base.Outcome.{Outcome, ok, err, panic, ◌>>=◌}
use acra.Wire.{WireError, eof, invalid_payload_length, read_full}

-- `Packet`
pub record Packet : Type 0 where
  pub header : Bytes
  pub content : Bytes

-- `NewPacket`
abbrev pub new_packet : Packet
new_packet = record { header = replicate 4 0; content = [] }

-- `MaxPayloadLen`
abbrev pub max_payload_len : ℕ
max_payload_len = 0xffffff

abbrev pub payload_length : Bytes → ℕ
payload_length header = le_value (take 3 header)

-- `GetPacketPayloadLength`
abbrev pub get_packet_payload_length : Packet → ℕ
get_packet_payload_length p = payload_length p.header

-- `updatePacketSize`: a size is cut to three bytes
abbrev pub update_packet_size : ℕ → Packet → Packet
update_packet_size n p = record p { header = le_bytes 3 n ++ drop 3 p.header }

-- `SetData`
unfoldable pub set_data : Bytes → Packet → Packet
set_data new p = update_packet_size (length new) (record p { content = new })

-- `replaceQuery`, of a packet with its command
unfoldable pub replace_query : Bytes → Packet → Packet
replace_query query p =
    update_packet_size (length query + 1) (record p { content = take 1 p.content ++ query })

-- `readPacket`: the last header, the payload, and what is left. Every turn takes four bytes at
-- least, so as many turns as there are bytes are enough.
unfoldable pub read_payload : ℕ → Bytes → Outcome WireError (Bytes × Bytes × Bytes)
unfolding read_full
read_payload zero stream = err eof
read_payload (suc turns) stream = do
  (header, rest) ← read_full 4 stream
  (if ltb (payload_length header) 1
      then err invalid_payload_length
      else (read_full (payload_length header) rest >>= λ (content, rest').
          let more = read_payload turns rest' in
          if ltb (payload_length header) max_payload_len
          then ok (header, content, rest')
          else (more >>= λ (last, buf, end). ok (last, content ++ buf, end))))

-- `ReadPacket`
unfoldable pub read_packet : Bytes → Outcome WireError (Packet × Bytes)
unfolding read_payload
read_packet stream = read_payload (suc (length stream)) stream >>= λ (header, content, rest).
    ok (record { header = header; content = content }, rest)

-- `Dump`
unfoldable pub dump : Packet → Bytes
dump p = p.header ++ p.content

-- `IsOK`, `IsEOF` and `IsErr`, of a packet that has a payload
abbrev pub is_ok : Packet → Bool
is_ok p = get_or p.content 0 0 == 0 && leb 7 (get_packet_payload_length p)

abbrev pub is_eof : Packet → Bool
is_eof p =
    (get_or p.content 0 0 == 0 && ltb 7 (get_packet_payload_length p))
    || (get_or p.content 0 0 == 0xfe && ltb (get_packet_payload_length p) 9)

abbrev pub is_err : Packet → Bool
is_err p = get_or p.content 0 0 == 0xff
