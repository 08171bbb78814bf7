-- ===== src/Mysql/Packet/Fragments.antt =====
-- What ReadPacket puts together of the fragments of a packet, and what Dump and SetData make of it.
use acra.Base.{
  ℕ, zero, suc, ◌≤◌, ◌<◌, ◌≡◌, ◌↔◌, refl, sym, ap, ◌∙◌, false, ◌++◌, Bytes, if◌then◌else◌, ltb,
  Bool-cases, inl, inr, arith, length, drop, length-append, length-take, length-drop,
  take-append-drop, append_assoc, lt→ltb, le→ltb,
}
use acra.Base.Words.{le_bytes, le_value-le_bytes}
use acra.Base.Outcome.{Outcome, ok, ◌>>=◌, >>=-eq_ok, ok_pair}
use acra.Wire.{WireError, read_full, read_full-eq_ok, read_full-append}
use acra.Mysql.Packet.{
  Packet, max_payload_len, payload_length, get_packet_payload_length, set_data, read_payload,
  read_packet, dump,
}

-- how the protocol cuts a packet: full fragments, and then one that is not full and may be empty
pub data IsPacket : Bytes → Bytes → Bytes → Bytes → Type 0 where
  last_fragment :
      {stream header content rest : Bytes}
      → header ++ content ++ rest ≡ stream
      → length header ≡ 4
      → length content ≡ payload_length header
      → length content < max_payload_len
      → IsPacket stream header content rest
  full_fragment :
      {stream header content rest : Bytes} (first chunk stream' content' : Bytes)
      → first ++ chunk ++ stream' ≡ stream
      → length first ≡ 4
      → length chunk ≡ payload_length first
      → max_payload_len ≤ length chunk
      → chunk ++ content' ≡ content
      → IsPacket stream' header content' rest
      → IsPacket stream header content rest

-- What two reads took stood in front of the rest.
read_full-twice :
    (stream : Bytes) {header after content rest : Bytes}
    → read_full 4 stream ≡ ok (header, after)
    → read_full (payload_length header) after ≡ ok (content, rest)
    → (header ++ content ++ rest ≡ stream)
      × (length header ≡ 4)
      × (length content ≡ payload_length header)
read_full-twice stream {header} {after} {content} {rest} h k =
    let (h1, h2, h3) = read_full-eq_ok 4 stream h in
    let (k1, k2, k3) = read_full-eq_ok (payload_length header) after k in
    (
      rw
          (
            append_assoc header content rest,
            k2,
            k3,
            take-append-drop (payload_length header) after,
            h2,
            h3,
          )
          (take-append-drop 4 stream),
      ap length h2 ∙ length-take 4 stream h1,
      ap length k2 ∙ length-take (payload_length header) after k1,
    )

abbrev Fragment : Type 0
Fragment = Bytes × Bytes × Bytes

ok_fragment :
    {a b c a' b' c' : Bytes}
    → ◌≡◌ {A = Outcome WireError Fragment} (ok (a, b, c)) (ok (a', b', c'))
    → (a ≡ a') × (b ≡ b') × (c ≡ c')
ok_fragment h = (cc, cc, cc)

-- What is read: a packet whose last fragment is not empty.
abbrev IsAccepted : Bytes → Bytes → Bytes → Bytes → Type 0
IsAccepted stream header content rest =
    IsPacket stream header content rest × (0 < payload_length header)

-- A turn that is not empty: its fragment is the last, or it stands in front of what is read next.
read_turn-IsAccepted :
    (turns : ℕ) (stream first after chunk stream' header content rest : Bytes)
    → read_full 4 stream ≡ ok (first, after)
    → read_full (payload_length first) after ≡ ok (chunk, stream')
    → ltb (payload_length first) 1 ≡ false
    → ((h c r : Bytes) → read_payload turns stream' ≡ ok (h, c, r) → IsAccepted stream' h c r)
    → if◌then◌else◌ {A = Outcome WireError Fragment}
        (ltb (payload_length first) max_payload_len)
        (ok (first, chunk, stream'))
        (read_payload turns stream' >>= λ (last, buf, end). ok (last, chunk ++ buf, end))
      ≡ ok (header, content, rest)
    → IsAccepted stream header content rest
read_turn-IsAccepted turns stream first after chunk stream' header content rest h k some more e =
    let (joined, four, long) = read_full-twice stream h k in
    elim (Bool-cases (ltb (payload_length first) max_payload_len)) [
      | inl last ↦
          let (h', c', r') = ok_fragment (rw last at e) in
          let read : IsAccepted stream first chunk stream' =
            (last_fragment joined four long (ground arith), ground arith) in
          rw (h', c', r') at read
      | inr full ↦
          let ((last, buf, end), m1, m2) =
            >>=-eq_ok {A = Fragment} (read_payload turns stream') _ (rw full at e) in
          let (h', c', r') = ok_fragment m2 in
          let (cut, some_last) = more last buf end m1 in
          (
            full_fragment first chunk stream' buf joined four long (ground arith) c'
                (rw (h', r') at cut),
            rw h' at some_last,
          )
    ]

read_payload-IsAccepted :
    (turns : ℕ) (stream header content rest : Bytes)
    → read_payload turns stream ≡ ok (header, content, rest)
    → IsAccepted stream header content rest
unfolding read_payload
read_payload-IsAccepted zero stream header content rest h = cc
read_payload-IsAccepted (suc turns) stream header content rest h =
    let ((first, after), h1, h2) = >>=-eq_ok (read_full 4 stream) _ h in
    elim (Bool-cases (ltb (payload_length first) 1)) [
      | inl none ↦ cc
      | inr some ↦
          let ((chunk, stream'), k1, k2) =
            >>=-eq_ok (read_full (payload_length first) after) _ (rw some at h2) in
          read_turn-IsAccepted turns stream first after chunk stream' header content rest h1 k1 some
            (read_payload-IsAccepted turns stream') k2
    ]

-- Two reads that find what they ask for make a turn.
read_turn :
    (turns : ℕ) (first chunk stream' : Bytes)
    → length first ≡ 4
    → length chunk ≡ payload_length first
    → 0 < length chunk
    → read_payload (suc turns) (first ++ chunk ++ stream')
      ≡ if◌then◌else◌ {A = Outcome WireError Fragment}
          (ltb (payload_length first) max_payload_len)
          (ok (first, chunk, stream'))
          (read_payload turns stream' >>= λ (last, buf, end). ok (last, chunk ++ buf, end))
unfolding read_payload
read_turn turns first chunk stream' four long some =
    rw
      (
        append_assoc first chunk stream',
        read_full-append 4 first (chunk ++ stream') four,
        le→ltb (payload_length first) 1 (omega arith),
        read_full-append (payload_length first) chunk stream' long,
      )
      refl

-- A packet that is cut as the protocol does is read, if its last fragment is not empty.
IsPacket-read_payload :
    (turns : ℕ) {stream header content rest : Bytes}
    → IsPacket stream header content rest
    → 0 < payload_length header
    → length stream < turns
    → read_payload turns stream ≡ ok (header, content, rest)
IsPacket-read_payload zero packet some enough = absurd (omega arith)
IsPacket-read_payload (suc turns) {stream} {header} {content} {rest}
      (last_fragment joined four long short) some enough =
    sym (ap (read_payload (suc turns)) joined)
    ∙ rw
        (
          read_turn turns header content rest four long (rw (sym long) at some),
          lt→ltb (payload_length header) max_payload_len (rw long at short),
        )
        refl
IsPacket-read_payload (suc turns) {stream} {header} {content} {rest}
      (full_fragment first chunk stream' content' joined four long full parts more) some enough =
    sym (ap (read_payload (suc turns)) joined)
    ∙ rw
        (
          read_turn turns first chunk stream' four long (omega arith),
          le→ltb (payload_length first) max_payload_len (rw long at full),
          IsPacket-read_payload turns more some (
              omega (
                arith,
                ap length joined,
                length-append (first ++ chunk) stream',
                length-append first chunk,
              )),
          parts,
        )
        refl

-- The bytes from which ReadPacket reads a packet are exactly those that the protocol cuts it into,
-- full fragments and then one that is not full, but for packets whose last fragment is empty,
-- which it refuses. As many turns as there are bytes are enough.
pub read_packet-IsPacket :
    (stream rest : Bytes) (p : Packet)
    → (read_packet stream ≡ ok (p, rest))
      ↔ (IsPacket stream p.header p.content rest × (0 < get_packet_payload_length p))
unfolding read_packet
read_packet-IsPacket stream rest p = (
  λ h.
      let ((header, content, end), h1, h2) =
        >>=-eq_ok {A = Fragment} (read_payload (suc (length stream)) stream) _ h in
      let parts = ok_pair h2 in
      rw (ap (λ q. q.header) parts.0, ap (λ q. q.content) parts.0, parts.1) at
        (read_payload-IsAccepted (suc (length stream)) stream header content end h1),
  λ (packet, some). rw (IsPacket-read_payload (suc (length stream)) packet some (omega arith)) refl,
)

-- A packet of new content that fits one fragment is read as it was written.
pub read_packet-dump :
    (new rest : Bytes) (p : Packet)
    → length p.header ≡ 4
    → 0 < length new
    → length new < max_payload_len
    → read_packet (dump (set_data new p) ++ rest) ≡ ok (set_data new p, rest)
unfolding dump set_data
read_packet-dump new rest p four some short =
    let size = sym (le_value-le_bytes 3 (length new) (omega arith)) in
    (read_packet-IsPacket (dump (set_data new p) ++ rest) rest (set_data new p)).1 (
      last_fragment refl
          (omega (
            arith,
            length-append (le_bytes 3 (length new)) (drop 3 p.header),
            length-drop 3 p.header,
          ))
          size short,
      rw size at some,
    )
