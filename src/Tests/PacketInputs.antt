-- ===== src/Tests/PacketInputs.antt =====
-- Length-encoded values and packets of MySQL at concrete inputs.
use acra.Base.{◌≡◌, ◌<◌, ◌↔◌, none, some, [], ◌∷◌, ◌++◌, length, text, arith}
use acra.Base.Outcome.{ok}
use acra.Mysql.{length_encoded_string, skip_length_encoded_string, put_length_encoded_string}
use acra.Mysql.Packet.{Packet, get_packet_payload_length, read_packet}
use acra.Mysql.Packet.Fragments.{IsPacket, read_packet-IsPacket}
use acra.Mysql.RoundTrip.{length_encoded_string-put}

length_encoded_string-put_example :
    (length_encoded_string (put_length_encoded_string (some (text "row")) ++ 9 ∷ [])
      ≡ ok (record {
        content = some (text "row");
        n = length (put_length_encoded_string (some (text "row")));
        error = none;
      }))
    × (skip_length_encoded_string (put_length_encoded_string (some (text "row")) ++ 9 ∷ [])
        ≡ (length (put_length_encoded_string (some (text "row"))), none))
unfolding put_length_encoded_string
length_encoded_string-put_example =
    length_encoded_string-put (some (text "row")) (9 ∷ []) (omega arith)

-- a packet with a header for another size
abbrev query_packet : Packet
query_packet = record { header = 1 ∷ 0 ∷ 0 ∷ 7 ∷ []; content = 14 ∷ [] }

read_packet-IsPacket_example :
    (read_packet (1 ∷ 0 ∷ 0 ∷ 7 ∷ 14 ∷ 15 ∷ []) ≡ ok (query_packet, 15 ∷ [])) ↔ (
      IsPacket (1 ∷ 0 ∷ 0 ∷ 7 ∷ 14 ∷ 15 ∷ []) query_packet.header query_packet.content (15 ∷ [])
      × (0 < get_packet_payload_length query_packet))
read_packet-IsPacket_example =
    read_packet-IsPacket (1 ∷ 0 ∷ 0 ∷ 7 ∷ 14 ∷ 15 ∷ []) (15 ∷ []) query_packet
