-- ===== src/Tests/PostgresInputs.antt =====
-- Packets, messages and sessions of PostgreSQL at concrete inputs.
use acra.Base.{
  ◌≡◌, ◌↔◌, ◌+◌, refl, Bool, true, false, Option, none, some, List, [], ◌∷◌, ◌++◌, Bytes, ℕ, ◌==◌,
  map, text, arith, length,
}
use acra.Base.Outcome.{Outcome, ok, panic}
use acra.Wire.{WireError, be_value}
use acra.Postgres.Packet.{
  PacketHandler, ColumnData, new_packet_handler, read_client_packet, read_general_packet,
  replace_simple_query, get_simple_query, marshal,
}
use acra.Postgres.Packet.Replaced.{replace_simple_query-read}
use acra.Postgres.Packet.Transparent.{read_client_packet-marshal}
use acra.Postgres.Packet.Crash.{is_too_short, read_client_packet-panic}
use acra.Postgres.Rows.{
  BoundValueFormat, text_format, binary_format, parse_columns, decrypt_columns, replace_columns,
  set_data,
}
use acra.Postgres.Rows.Columns.{unmarked}
use acra.Postgres.Rows.Replaced.{replace_columns-parse}
use acra.Postgres.Messages.{ParsePacket, BindPacket, new_bind_packet, marshal_bind}
use acra.Postgres.Messages.Kept.{new_bind_packet-marshal}
use acra.Postgres.Bound.{BoundValue, get_parameters, set_parameters}
use acra.Postgres.Bound.Kept.{get_parameters-set_parameters}
use acra.Postgres.Registry.{Registry, new_registry, new_prepared_statement}
use acra.Postgres.Session.{QueryPacket, simple, extended, new_session, is_completion, other_packet}
use acra.Postgres.Session.Matched.{Event, asks, executes, packet, run_session, serve}
use acra.Postgres.Pending.{new_pending_packets_list}
use acra.Postgres.Session.Blocked.{Round, rounds, run_session-blocked}

-- a query packet, with the packet that is behind it
abbrev query_stream : Bytes
query_stream = b'Q' ∷ 0 ∷ 0 ∷ 0 ∷ 7 ∷ text "a;" ++ 0 ∷ b'S' ∷ 0 ∷ []

abbrev started_handler : PacketHandler
started_handler = record new_packet_handler { started = true }

abbrev query_packet : PacketHandler
query_packet = record started_handler {
  message_type = b'Q';
  description_length_buf = 0 ∷ 0 ∷ 0 ∷ 7 ∷ [];
  description_buf = text "a;" ++ 0 ∷ [];
  data_length = 3;
}

read_client_packet-marshal_example : [] ++ (marshal query_packet ++ b'S' ∷ 0 ∷ []) ≡ query_stream
unfolding read_client_packet
read_client_packet-marshal_example =
    read_client_packet-marshal started_handler query_stream {p' = query_packet}
      {rest = b'S' ∷ 0 ∷ []} refl refl

read_client_packet-panic_example :
    (read_client_packet started_handler (b'Q' ∷ 0 ∷ 0 ∷ 0 ∷ 3 ∷ []) ≡ panic)
    ↔ (is_too_short true (b'Q' ∷ 0 ∷ 0 ∷ 0 ∷ 3 ∷ []) ≡ true)
read_client_packet-panic_example =
    read_client_packet-panic started_handler (b'Q' ∷ 0 ∷ 0 ∷ 0 ∷ 3 ∷ []) (omega arith)

-- a row of a null and a column, each column written twice by its decryption
abbrev row_packet : PacketHandler
row_packet = record started_handler {
  message_type = b'D';
  description_length_buf = 0 ∷ 0 ∷ 0 ∷ 16 ∷ [];
  description_buf = 0 ∷ 2 ∷ 255 ∷ 255 ∷ 255 ∷ 255 ∷ 0 ∷ 0 ∷ 0 ∷ 2 ∷ 65 ∷ 66 ∷ [];
}

abbrev doubled : ℕ → Bytes → BoundValueFormat → Option ℕ → Outcome WireError Bytes
doubled i content format setting = ok (content ++ content)

abbrev null_column : ColumnData
null_column = record {
  length_buf = 255 ∷ 255 ∷ 255 ∷ 255 ∷ [];
  content = [];
  changed = false;
  is_null = true;
}

abbrev read_column_2 : ColumnData
read_column_2 = record {
  length_buf = 0 ∷ 0 ∷ 0 ∷ 2 ∷ [];
  content = 65 ∷ 66 ∷ [];
  changed = false;
  is_null = false;
}

abbrev new_columns : List ColumnData
new_columns = null_column ∷ set_data (65 ∷ 66 ∷ 65 ∷ 66 ∷ []) read_column_2 ∷ []

abbrev parsed_packet : PacketHandler
parsed_packet = record row_packet { column_count = 2; columns = null_column ∷ read_column_2 ∷ [] }

replace_columns-parse_example :
    (p' : PacketHandler) × (replace_columns doubled none (0 ∷ []) parsed_packet ≡ ok p')
    × (be_value p'.description_length_buf ≡ length p'.description_buf + 4)
    × (parse_columns (0 ∷ []) p' ≡ ok (record p' { columns = map unmarked new_columns }))
unfolding parse_columns decrypt_columns
replace_columns-parse_example =
    replace_columns-parse doubled none (0 ∷ []) row_packet parsed_packet new_columns (omega arith)
      refl (omega arith) refl refl (omega arith) (omega arith)

abbrev parse_bytes : Bytes
parse_bytes = text "s" ++ 0 ∷ text "q" ++ 0 ∷ 0 ∷ 1 ∷ 0 ∷ 0 ∷ 0 ∷ 23 ∷ []

abbrev parse_packet : ParsePacket
parse_packet = record {
  name = text "s" ++ 0 ∷ [];
  query = text "q" ++ 0 ∷ [];
  params_num = 0 ∷ 1 ∷ [];
  params = (0 ∷ 0 ∷ 0 ∷ 23 ∷ []) ∷ [];
}

abbrev parse_handler : PacketHandler
parse_handler = record new_packet_handler { message_type = b'P'; description_buf = parse_bytes }

abbrev bind_bytes : Bytes
bind_bytes =
    text "p"
    ++ 0 ∷ text "s"
    ++ 0 ∷ 0 ∷ 1 ∷ 0 ∷ 1 ∷ 0 ∷ 2 ∷ 255 ∷ 255 ∷ 255 ∷ 255 ∷ 0 ∷ 0 ∷ 0 ∷ 1 ∷ 65 ∷ 0 ∷ 0 ∷ []

abbrev bind_packet : BindPacket
bind_packet = record {
  portal = text "p";
  statement = text "s";
  param_formats = 1 ∷ [];
  param_values = none ∷ some (65 ∷ []) ∷ [];
  result_formats = [];
}

new_bind_packet-marshal_example :
    (out behind : Bytes) × (marshal_bind bind_packet ≡ ok out)
    × (out ++ behind ≡ bind_bytes)
    × (length out ≡ 21)
unfolding new_bind_packet
new_bind_packet-marshal_example =
    new_bind_packet-marshal bind_bytes {p = bind_packet} (omega arith) refl

-- a query that is asked for, the censor being against an empty one
abbrev is_empty : Bytes → Bool
is_empty b = length b == 0

abbrev never : QueryPacket → Bool
never q = false

-- every portal is of the statement at 1
abbrev one_statement : Registry
one_statement =
    new_registry (λ s. new_prepared_statement (text "s") (text "b"))
      (λ c. record { bind = bind_packet; statement = 1 })

-- two queries are sent before the first row comes
abbrev pipeline : List Event
pipeline =
    asks (text "a")
    ∷ executes one_statement 2 (record { portal = text "p"; max_rows = 0 })
    ∷ packet b'D'
    ∷ packet b'C'
    ∷ packet b'D'
    ∷ packet b'D'
    ∷ packet b's'
    ∷ packet b'Z'
    ∷ packet b'E'
    ∷ []

abbrev executed : QueryPacket
executed = extended 1 2 (record { portal = text "p"; max_rows = 0 })

-- a row description in front of two rows, then one row
abbrev two_rounds : List Round
two_rounds =
    record { text = text "a"; tags = b'T' ∷ b'D' ∷ b'D' ∷ []; completion = b'C' }
    ∷ record { text = text "b"; tags = b'D' ∷ []; completion = b'C' }
    ∷ []

run_session-blocked_example :
    (serve is_empty [] (asks [] ∷ rounds two_rounds)
      ≡ some (simple (text "a") ∷ simple (text "a") ∷ simple (text "b") ∷ []))
    × (run_session is_empty never new_session (asks [] ∷ rounds two_rounds)
        ≡ ok (simple [] ∷ simple [] ∷ simple (text "a") ∷ []))
unfolding is_completion
run_session-blocked_example =
    run_session-blocked is_empty never (λ q. refl) other_packet new_pending_packets_list []
      two_rounds refl refl (refl, (refl, (refl, (refl, tt))), refl, (refl, (refl, tt), refl, tt))

abbrev binary_value : BoundValue
binary_value = record { content = some (1 ∷ []); format = binary_format }

abbrev text_value : BoundValue
text_value = record { content = none; format = text_format }

get_parameters-set_parameters_example :
    get_parameters (set_parameters (binary_value ∷ text_value ∷ []) bind_packet)
    ≡ ok (binary_value ∷ text_value ∷ [])
get_parameters-set_parameters_example =
    get_parameters-set_parameters binary_value (text_value ∷ []) bind_packet

replace_simple_query-read_example :
    (p' : PacketHandler) × (read_general_packet started_handler
        (marshal (replace_simple_query (text "b") query_packet) ++ 7 ∷ [])
      ≡ ok (p', 7 ∷ []))
    × (get_simple_query p' ≡ ok (text "b"))
replace_simple_query-read_example =
    replace_simple_query-read (text "b") (7 ∷ []) query_packet started_handler refl (omega arith)
