-- ===== src/Postgres/Session.antt =====
-- The queries of a connection and the rows that answer them: decryptor/postgresql/protocol.go, and
-- the loops ProxyClientConnection and ProxyDatabaseConnection of pg_decryptor.go.
pub mod Matched
pub mod Blocked
use acra.Base.{
  ◌≡◌, refl, Bool, true, false, ◌||◌, Option, none, some, List, [], ◌∷◌, ◌++◌, Bytes, ℕ, ◌==◌,
  if◌then◌else◌,
}
use acra.Base.Outcome.{Outcome, ok, err, panic, ◌>>=◌}
use acra.Postgres.Pending.{
  PendingPacketsList, PendingError, new_pending_packets_list, add, remove_next_pending_packet,
  get_pending_packet, query,
}
use acra.Postgres.Messages.{ExecutePacket}
use acra.Postgres.Registry.{Registry}

-- `queryPacket`: a simple query, or an Execute packet with the objects of its prepared statement and
-- of its portal, which holds the Bind packet. The objects are shared with the registry.
pub data QueryPacket : Type 0 where
  simple : Bytes → QueryPacket
  extended : ℕ → ℕ → ExecutePacket → QueryPacket

-- `GetSQLQuery`, with what the objects hold by then
abbrev pub get_sql_query : Registry → QueryPacket → Bytes
get_sql_query r (simple text) = text
get_sql_query r (extended s c e) = (r.statement_at s).text

pub data PacketType : Type 0 where
  simple_query_packet parse_statement_packet parse_complete_packet : PacketType
  bind_statement_packet bind_complete_packet data_packet row_description_packet : PacketType
  parameter_description_packet ready_for_query_packet execute_packet_type other_packet : PacketType

-- `PgProtocolState`
pub record ProtocolState : Type 0 where
  pub last_packet_type : PacketType
  pub pending_query_packets : PendingPacketsList QueryPacket

-- `NewPgProtocolState`
abbrev pub new_protocol_state : ProtocolState
new_protocol_state = record {
  last_packet_type = other_packet;
  pending_query_packets = new_pending_packets_list;
}

-- `HandleClientPacket`, by the tag of the packet
abbrev pub client_packet_type : ℕ → PacketType
client_packet_type tag =
    if tag == b'Q'
    then simple_query_packet
    else if tag == b'P'
    then parse_statement_packet
    else if tag == b'B'
    then bind_statement_packet
    else if tag == b'E'
    then execute_packet_type
    else other_packet

abbrev pub handle_client_packet : ℕ → ProtocolState → ProtocolState
handle_client_packet tag s = record s { last_packet_type = client_packet_type tag }

-- CommandComplete, EmptyQueryResponse, PortalSuspended and ErrorResponse
unfoldable pub is_completion : ℕ → Bool
is_completion tag = tag == b'C' || tag == b'I' || tag == b's' || tag == b'E'

-- the other types of the packets of the database
unfoldable pub database_packet_type : ℕ → PacketType
unfolding is_completion
database_packet_type tag =
    if tag == b'D'
    then data_packet
    else if tag == b'T'
    then row_description_packet
    else if tag == b't'
    then parameter_description_packet
    else if tag == b'1'
    then parse_complete_packet
    else if tag == b'2'
    then bind_complete_packet
    else if is_completion tag
    then other_packet
    else if tag == b'Z'
    then ready_for_query_packet
    else other_packet

-- what HandleDatabasePacket does with the pending queries at a completion
unfoldable pub complete : ProtocolState → Outcome PendingError ProtocolState
unfolding get_pending_packet remove_next_pending_packet
complete s = get_pending_packet query s.pending_query_packets >>= λ pending. elim pending [
  | none ↦ ok s
  | some q ↦
      let (lists, removed) = remove_next_pending_packet query s.pending_query_packets in
      removed >>= λ _. ok (record s { pending_query_packets = lists })
]

-- `HandleDatabasePacket`
unfoldable pub handle_database_packet : ℕ → ProtocolState → Outcome PendingError ProtocolState
unfolding complete
handle_database_packet tag s =
    let next = record s { last_packet_type = database_packet_type tag } in
    if is_completion tag then complete next else ok next

-- a connection: the protocol, and whether the rest of a response is skipped
pub record Session : Type 0 where
  pub protocol : ProtocolState
  pub is_skipping : Bool

abbrev pub new_session : Session
new_session = record { protocol = new_protocol_state; is_skipping = false }

module _ (is_blocked : Bytes → Bool) where
  -- handleClientPacket of a simple query: the query waits for its rows, then the censor decides
  -- whether it is sent.
  unfoldable pub client_query : Bytes → Session → Outcome PendingError (Session × Bool)
  unfolding add
  client_query text s =
      let seen = handle_client_packet b'Q' s.protocol in
      let (lists, added) = add query (simple text) seen.pending_query_packets in
      added >>= λ _. ok (
        record s { protocol = record seen { pending_query_packets = lists } },
        if is_blocked text then false else true,
      )

-- handleClientPacket of an Execute packet, with the registry and the portal that `CursorByName` found
-- in it: the portal and its statement are kept as the objects that they are.
unfoldable pub client_execute :
    Registry → ℕ → ExecutePacket → Session → Outcome PendingError Session
unfolding add
client_execute r portal e s =
    let seen = handle_client_packet b'E' s.protocol in
    let found = extended (r.portal_at portal).statement portal e in
    let (lists, added) = add query found seen.pending_query_packets in
    added >>= λ _. ok (record s { protocol = record seen { pending_query_packets = lists } })

-- handleQueryDataPacket, up to the query that the row answers: without one, the type assertion
-- panics
unfoldable pub row_query : ProtocolState → Outcome PendingError QueryPacket
unfolding get_pending_packet
row_query s = get_pending_packet query s.pending_query_packets >>= λ pending. elim pending [
  | none ↦ panic
  | some q ↦ ok q
]

module _ (is_encoding_error : QueryPacket → Bool) where
  -- The loop of ProxyDatabaseConnection, for one packet behind the first: the query that its row is
  -- taken for, if it is a row. A row that cannot be encoded starts the skipping of the response.
  unfoldable pub database_packet : ℕ → Session → Outcome PendingError (Session × Option QueryPacket)
  unfolding handle_database_packet row_query
  database_packet tag s = elim s.is_skipping [
    | true ↦
        if tag == b'Z'
        then (handle_database_packet tag s.protocol >>= λ p.
            ok (record { protocol = p; is_skipping = false }, none))
        else ok (s, none)
    | false ↦ handle_database_packet tag s.protocol >>= λ p.
        if tag == b'D'
        then (row_query p >>= λ q.
            ok (record { protocol = p; is_skipping = is_encoding_error q }, some q))
        else ok (record { protocol = p; is_skipping = false }, none)
  ]
