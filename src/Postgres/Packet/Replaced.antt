-- ===== src/Postgres/Packet/Replaced.antt =====
-- A Query packet whose query was exchanged is read as one with the new query.
use acra.Base.{
  ℕ, ◌+◌, ◌<◌, ◌≡◌, refl, ap, ◌∙◌, [], ◌∷◌, ◌++◌, Bytes, ◌==◌, if◌then◌else◌, le→ltb, arith, length,
  take, drop, length-append, take-append, drop-append,
}
use acra.Base.Words.{word_mod}
use acra.Base.Outcome.{Outcome, ok}
use acra.Wire.{WireError, read_full, read_full-append, be_bytes, be_value, be_value-be_bytes_32}
use acra.Postgres.Packet.{
  PacketHandler, reset, int_sub, set_data_length_buffer, read_data, general_packet,
  read_general_packet, marshal, get_simple_query, replace_simple_query,
}

int_sub-below : (n k : ℕ) → n + k < word_mod → int_sub (n + k) k ≡ n
int_sub-below n k h = omega arith

take-at : (n : ℕ) (front rest : Bytes) → n ≡ length front → take n (front ++ rest) ≡ front
take-at n front rest e = rw e (take-append front rest)

drop-at : (n : ℕ) (front rest : Bytes) → n ≡ length front → drop n (front ++ rest) ≡ rest
drop-at n front rest e = rw e (drop-append front rest)

-- All the data that a packet states is read.
read_data-append :
    (p : PacketHandler) (content rest : Bytes)
    → p.data_length ≡ length content
    → length content < 0x100000000
    → read_data p (content ++ rest)
      ≡ ok (record p { description_buf = p.description_buf ++ content }, rest)
unfolding read_data
read_data-append p content rest sized small =
    rw
      (
        le→ltb 0x7fffffffffffffff p.data_length (omega arith),
        le→ltb (length (content ++ rest)) p.data_length (omega (arith, length-append content rest)),
        take-at p.data_length content rest sized,
        drop-at p.data_length content rest sized,
      )
      refl

-- The query of a packet whose data is the query and its terminator
get_simple_query-terminated :
    (p : PacketHandler) (query : Bytes)
    → p.description_buf ≡ query ++ 0 ∷ []
    → p.data_length ≡ length query + 1
    → length query < 0x80000000
    → get_simple_query p ≡ ok query
unfolding get_simple_query
get_simple_query-terminated p query buffer sized small =
    let end : int_sub p.data_length 1 ≡ length query = omega arith in
    rw
      (
        end,
        le→ltb 0x7fffffffffffffff (length query) (omega arith),
        buffer,
        take-append query (0 ∷ []),
      )
      refl

-- A packet with a tag is read, whatever the reader was.
general_packet-read :
    (reader : PacketHandler) (n : ℕ) (content rest : Bytes)
    → n ≡ length content + 4
    → n < 0x80000000
    → (p' : PacketHandler) × (general_packet (reset reader) (b'Q' ∷ be_bytes 4 n) (content ++ rest)
        ≡ ok (p', rest))
      × (p'.description_buf ≡ content)
      × (p'.data_length ≡ length content)
unfolding general_packet
general_packet-read reader n content rest sized small =
    let sub : int_sub (be_value (be_bytes 4 n)) 4 ≡ length content =
      omega (arith, be_value-be_bytes_32 n) in
    let tagged =
      set_data_length_buffer (be_bytes 4 n) (record (reset reader) { message_type = b'Q' }) in
    (
      record tagged { description_buf = content },
      read_data-append tagged content rest sub (omega arith),
      refl,
      sub,
    )

read_general_packet-eq :
    (reader : PacketHandler) (stream header behind : Bytes)
    {r : Outcome WireError (PacketHandler × Bytes)}
    → read_full 5 stream ≡ ok (header, behind)
    → general_packet (reset reader) header behind ≡ r
    → read_general_packet reader stream ≡ r
unfolding read_general_packet
read_general_packet-eq reader stream header behind h k = rw (h, read_general_packet) k

tag-put :
    (tag : ℕ) (sized content rest : Bytes)
    → tag ≡ b'Q'
    → (if tag == 0 then [] else tag ∷ []) ++ sized ++ content ++ rest
      ≡ b'Q' ∷ (sized ++ content ++ rest)
tag-put tag sized content rest e = rw e refl

-- Where the query of a Query packet is exchanged, what is sent is read, by any reader, as a packet
-- whose query is the new one. The query is shorter than 2^31 - 5 bytes.
pub replace_simple_query-read :
    (query rest : Bytes) (p reader : PacketHandler)
    → p.message_type ≡ b'Q'
    → length query < 0x7ffffffb
    → (p' : PacketHandler) × (read_general_packet reader
          (marshal (replace_simple_query query p) ++ rest)
        ≡ ok (p', rest))
      × (get_simple_query p' ≡ ok query)
unfolding marshal replace_simple_query read_general_packet
replace_simple_query-read query rest p reader tagged small =
    let (p', read, buffer, sized) =
      general_packet-read reader (length query + 1 + 4) (query ++ 0 ∷ []) rest
        (omega (arith, length-append query (0 ∷ []))) (omega arith) in
    (
      p',
      read_general_packet-eq reader (marshal (replace_simple_query query p) ++ rest)
          (b'Q' ∷ be_bytes 4 (length query + 1 + 4)) (query ++ 0 ∷ [] ++ rest)
          (ap (read_full 5) (
              tag-put p.message_type (be_bytes 4 (length query + 1 + 4)) (query ++ 0 ∷ []) rest
                tagged)
            ∙ read_full-append 5 (b'Q' ∷ be_bytes 4 (length query + 1 + 4))
                (query ++ 0 ∷ [] ++ rest) refl)
          read,
      get_simple_query-terminated p' query buffer (sized ∙ length-append query (0 ∷ []))
          (omega arith),
    )
