-- ===== src/Postgres/Session/Blocked.antt =====
-- A simple query that the censor blocks goes on waiting for an answer that never comes.
use acra.Base.{
  ◌≡◌, refl, ap, ◌∙◌, Bool, true, false, some, List, [], ◌∷◌, ◌++◌, Bytes, ℕ, ◌==◌, if◌then◌else◌,
  inl, inr, Bool-cases, arith,
}
use acra.Base.Outcome.{ok}
use acra.Postgres.Pending.{PendingPacketsList, query, packets_of, replaced}
use acra.Postgres.Session.{
  QueryPacket, simple, PacketType, is_completion, database_packet_type, simple_query_packet,
}
use acra.Postgres.Session.Matched.{
  Event, asks, packet, run_session, serve, session, row_lem, other_lem, completed_lem,
}

-- a query that is answered: its text, the tags of the packets in front of the completion, and the
-- tag of the completion
pub record Round : Type 0 where
  pub text : Bytes
  pub tags : List ℕ
  pub completion : ℕ

abbrev pub packets : List ℕ → List Event → List Event
packets [] es = es
packets (tag ∷ tags) es = packet tag ∷ packets tags es

-- Each query is asked, answered, completed, and followed by ReadyForQuery.
abbrev pub rounds : List Round → List Event
rounds [] = []
rounds (u ∷ us) = asks u.text ∷ packets u.tags (packet u.completion ∷ packet b'Z' ∷ rounds us)

-- one query for each row among the tags, in front of the others
abbrev pub rows : QueryPacket → List ℕ → List QueryPacket → List QueryPacket
rows q [] others = others
rows q (tag ∷ tags) others = let rest = rows q tags others in if tag == b'D' then q ∷ rest else rest

-- the queries that the rows answer
abbrev pub in_place : List Round → List QueryPacket
in_place [] = []
in_place (u ∷ us) = rows (simple u.text) u.tags (in_place us)

-- for each row, the query that is one place in front of the one that it answers
abbrev pub one_behind : Bytes → List Round → List QueryPacket
one_behind t [] = []
one_behind t (u ∷ us) = rows (simple t) u.tags (one_behind u.text us)

-- no completion among them
abbrev pub AllOngoing : List ℕ → Type 0
AllOngoing [] = Unit
AllOngoing (tag ∷ tags) = (is_completion tag ≡ false) × AllOngoing tags

completion-ne-row : (tag : ℕ) → is_completion tag ≡ true → (tag == b'D') ≡ false
unfolding is_completion
completion-ne-row tag done = ground arith

ready_ongoing : is_completion b'Z' ≡ false
unfolding is_completion
ready_ongoing = refl

module _ (is_blocked : Bytes → Bool) where
  -- The censor lets each query pass, and each is completed once.
  abbrev pub AllAnswered : List Round → Type 0
  AllAnswered [] = Unit
  AllAnswered (u ∷ us) =
      (is_blocked u.text ≡ false)
      × AllOngoing u.tags
      × (is_completion u.completion ≡ true)
      × AllAnswered us

  serve-asks :
      (waiting : List QueryPacket) (u : Bytes) (es : List Event)
      → is_blocked u ≡ false
      → serve is_blocked waiting (asks u ∷ es) ≡ serve is_blocked (waiting ++ simple u ∷ []) es
  unfolding serve
  serve-asks waiting u es h = rw h refl

  serve-packets :
      (q : QueryPacket) (tags : List ℕ) (es : List Event) {others : List QueryPacket}
      → AllOngoing tags
      → serve is_blocked (q ∷ []) es ≡ some others
      → serve is_blocked (q ∷ []) (packets tags es) ≡ some (rows q tags others)
  unfolding serve
  serve-packets q [] es ongoing h = h
  serve-packets q (tag ∷ tags) es (first, ongoing) h =
      let later = serve-packets q tags es ongoing h in
      elim (Bool-cases (tag == b'D')) [
        | inl is_row ↦ rw (is_row, later) refl
        | inr no_row ↦ rw (no_row, first, later) refl
      ]

  serve-rounds :
      (us : List Round) → AllAnswered us → serve is_blocked [] (rounds us) ≡ some (in_place us)
  unfolding serve
  serve-rounds [] h = refl
  serve-rounds (u ∷ us) (allowed, ongoing, done, h) =
      let ended = completion-ne-row u.completion done in
      let rest = packet u.completion ∷ packet b'Z' ∷ rounds us in
      serve-asks [] u.text (packets u.tags rest) allowed
      ∙ serve-packets (simple u.text) u.tags rest ongoing
          (rw (ended, done, ready_ongoing, serve-rounds us h) refl)

  module _ (is_encoding_error : QueryPacket → Bool)
      (fine : (q : QueryPacket) → is_encoding_error q ≡ false) where
    run_session-packets :
        (last : PacketType) (lists : PendingPacketsList QueryPacket) (q : QueryPacket)
        (waiting : List QueryPacket) (tags : List ℕ) (es : List Event) {others : List QueryPacket}
        → packets_of (lists query) ≡ q ∷ waiting
        → AllOngoing tags
        → ((last' : PacketType)
            → run_session is_blocked is_encoding_error (session last' lists) es ≡ ok others)
        → run_session is_blocked is_encoding_error (session last lists) (packets tags es)
          ≡ ok (rows q tags others)
    unfolding run_session
    run_session-packets last lists q waiting [] es w ongoing h = h last
    run_session-packets last lists q waiting (tag ∷ tags) es w (first, ongoing) h =
        let later =
          run_session-packets (database_packet_type tag) lists q waiting tags es w ongoing h in
        elim (Bool-cases (tag == b'D')) [
          | inl is_row ↦
              rw
                (
                  row_lem is_encoding_error last lists tag q waiting is_row (fine q) w,
                  later,
                  is_row,
                )
                refl
          | inr no_row ↦
              rw (other_lem is_encoding_error last lists tag no_row first, later, no_row) refl
        ]

    run_session-rounds :
        (last : PacketType) (lists : PendingPacketsList QueryPacket) (t : Bytes) (us : List Round)
        → packets_of (lists query) ≡ simple t ∷ []
        → AllAnswered us
        → run_session is_blocked is_encoding_error (session last lists) (rounds us)
          ≡ ok (one_behind t us)
    unfolding run_session
    run_session-rounds last lists t [] w h = refl
    run_session-rounds last lists t (u ∷ us) w (allowed, ongoing, done, h) =
        let own = simple u.text in
        let waiting = replaced query (packets_of (lists query) ++ own ∷ []) lists in
        let asked : packets_of (waiting query) ≡ simple t ∷ own ∷ [] =
          ap (λ (l : List QueryPacket). l ++ own ∷ []) w in
        let no_row = completion-ne-row u.completion done in
        run_session-packets simple_query_packet waiting (simple t) (own ∷ []) u.tags _ asked ongoing
          (λ last'.
            rw
              (
                completed_lem is_encoding_error last' waiting u.completion (simple t) (own ∷ [])
                    no_row done asked,
                other_lem is_encoding_error (database_packet_type u.completion) _ b'Z' refl
                    ready_ongoing,
                run_session-rounds (database_packet_type b'Z') _ u.text us refl h,
              )
              refl)

    -- Where no query waits and the censor blocks a simple query, and then simple queries are
    -- asked, each of which passes the censor and is answered before the next by any packets
    -- without a completion, one completion and ReadyForQuery, the database's rows answer these
    -- queries, but each row is taken for an answer to the query in front of it: the rows of the
    -- first for the blocked query, and so on. Every row can be encoded.
    pub run_session-blocked :
        (last : PacketType) (lists : PendingPacketsList QueryPacket) (t : Bytes) (us : List Round)
        → packets_of (lists query) ≡ []
        → is_blocked t ≡ true
        → AllAnswered us
        → (serve is_blocked [] (asks t ∷ rounds us) ≡ some (in_place us))
          × (run_session is_blocked is_encoding_error (session last lists) (asks t ∷ rounds us)
              ≡ ok (one_behind t us))
    unfolding run_session serve
    run_session-blocked last lists t us none_waiting blocked answers = (
      rw (blocked, serve) (serve-rounds us answers),
      run_session-rounds simple_query_packet _ t us
          (ap (λ (l : List QueryPacket). l ++ simple t ∷ []) none_waiting) answers,
    )
