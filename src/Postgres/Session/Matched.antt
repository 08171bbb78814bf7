-- ===== src/Postgres/Session/Matched.antt =====
-- The rows of a connection are taken for answers to the right queries, and what breaks that.
use acra.Base.{
  ◌≡◌, refl, ap, Bool, true, false, Option, none, some, List, [], ◌∷◌, ◌++◌, Bytes, ℕ, ◌==◌,
  if◌then◌else◌, arith,
}
use acra.Base.Outcome.{Outcome, ok, ◌>>=◌}
use acra.Postgres.Pending.{
  PendingPacketsList, PendingError, remove_next_pending_packet, get_pending_packet, query,
  packets_of, front, behind, replaced,
}
use acra.Postgres.Messages.{ExecutePacket}
use acra.Postgres.Registry.{Registry}
use acra.Postgres.Session.{
  QueryPacket, simple, extended, PacketType, Session, database_packet_type, is_completion,
  client_query, client_execute, complete, handle_database_packet, row_query, database_packet,
}

-- What happens on a connection: the client asks, or executes a portal that it finds in the registry
-- as it is then, or the database sends a packet.
pub data Event : Type 0 where
  asks : Bytes → Event
  executes : Registry → ℕ → ExecutePacket → Event
  packet : ℕ → Event

module _ (is_blocked : Bytes → Bool) (is_encoding_error : QueryPacket → Bool) where
  -- the queries that the rows of a connection are taken for, in order
  unfoldable pub run_session : Session → List Event → Outcome PendingError (List QueryPacket)
  unfolding client_query client_execute database_packet
  run_session s [] = ok []
  run_session s (asks text ∷ es) =
      client_query is_blocked text s >>= λ (s', sent). run_session s' es
  run_session s (executes r c e ∷ es) = client_execute r c e s >>= λ s'. run_session s' es
  run_session s (packet tag ∷ es) = database_packet is_encoding_error tag s >>= λ (s', row).
      let rest = run_session s' es in
      elim row [ none ↦ rest | some q ↦ (rest >>= λ rows. ok (q ∷ rows)) ]

-- a query in front of those that later rows answer
abbrev pub answered : QueryPacket → Option (List QueryPacket) → Option (List QueryPacket)
answered q none = none
answered q (some rows) = some (q ∷ rows)

-- The database, with the queries that it has not completed. The protocol answers queries in the
-- order in which they are sent: a row answers the first of them, and a completion ends it. A query
-- that is blocked does not reach it. An ErrorResponse may come without a query; `none` is a
-- database that breaks the protocol.
module _ (is_blocked : Bytes → Bool) where
  unfoldable pub serve : List QueryPacket → List Event → Option (List QueryPacket)
  serve waiting [] = some []
  serve waiting (asks text ∷ es) =
      serve (if is_blocked text then waiting else waiting ++ simple text ∷ []) es
  serve waiting (executes r c e ∷ es) =
      serve (waiting ++ extended (r.portal_at c).statement c e ∷ []) es
  serve waiting (packet tag ∷ es) =
      let same = serve waiting es in
      let next = serve (behind waiting) es in
      if tag == b'D'
      then elim (front waiting) [ none ↦ none | some q ↦ answered q same ]
      else if is_completion tag
      then elim (front waiting) [ none ↦ (if tag == b'E' then same else none) | some q ↦ next ]
      else same

  -- the censor lets every query pass
  abbrev pub AllSent : List Event → Type 0
  AllSent [] = Unit
  AllSent (asks text ∷ es) = (is_blocked text ≡ false) × AllSent es
  AllSent (executes r c e ∷ es) = AllSent es
  AllSent (packet tag ∷ es) = AllSent es

abbrev pub session : PacketType → PendingPacketsList QueryPacket → Session
session last lists = record {
  protocol = record { last_packet_type = last; pending_query_packets = lists };
  is_skipping = false;
}

packets_of-cons :
    {A : Type 0} (o : Option (List A)) {a : A} {rest : List A}
    → packets_of o ≡ a ∷ rest
    → o ≡ some (a ∷ rest)
packets_of-cons none h = cc
packets_of-cons (some l) h = ap some h

row-ne-completion : (tag : ℕ) → (tag == b'D') ≡ true → is_completion tag ≡ false
unfolding is_completion
row-ne-completion tag is_row = ground arith

remove_lem :
    (lists : PendingPacketsList QueryPacket) (q : QueryPacket) (waiting : List QueryPacket)
    → packets_of (lists query) ≡ q ∷ waiting
    → remove_next_pending_packet query lists ≡ (replaced query waiting lists, ok tt)
unfolding remove_next_pending_packet
remove_lem lists q waiting h = rw (packets_of-cons (lists query) h) refl

module _ (is_encoding_error : QueryPacket → Bool) (last : PacketType)
    (lists : PendingPacketsList QueryPacket) where
  pub row_lem :
      (tag : ℕ) (q : QueryPacket) (waiting : List QueryPacket)
      → (tag == b'D') ≡ true
      → is_encoding_error q ≡ false
      → packets_of (lists query) ≡ q ∷ waiting
      → database_packet is_encoding_error tag (session last lists)
        ≡ ok (session (database_packet_type tag) lists, some q)
  unfolding database_packet handle_database_packet row_query get_pending_packet
  row_lem tag q waiting is_row fine h = rw (row-ne-completion tag is_row, is_row, h, fine) refl

  pub other_lem :
      (tag : ℕ)
      → (tag == b'D') ≡ false
      → is_completion tag ≡ false
      → database_packet is_encoding_error tag (session last lists)
        ≡ ok (session (database_packet_type tag) lists, none)
  unfolding database_packet handle_database_packet
  other_lem tag no_row ongoing = rw (no_row, ongoing) refl

  pub completed_lem :
      (tag : ℕ) (q : QueryPacket) (waiting : List QueryPacket)
      → (tag == b'D') ≡ false
      → is_completion tag ≡ true
      → packets_of (lists query) ≡ q ∷ waiting
      → database_packet is_encoding_error tag (session last lists)
        ≡ ok (session (database_packet_type tag) (replaced query waiting lists), none)
  unfolding database_packet handle_database_packet complete get_pending_packet
  completed_lem tag q waiting no_row done h =
      rw (no_row, done, h, remove_lem lists q waiting h) refl
