-- ===== src/Postgres/Packet/Transparent.antt =====
-- What ReadClientPacket takes of a client, Marshal gives to the database unchanged.
use acra.Base.{
  ℕ, ◌≤◌, ◌≡◌, refl, sym, ap, ◌∙◌, Bool, true, false, [], ◌∷◌, ◌++◌, Bytes, ◌==◌, inl, inr, ◌⊎◌,
  Bool-cases, arith, length, take, drop, get_or, take-append-drop, append_assoc, ltb, bytes_eq,
  if◌then◌else◌, ==_iff,
}
use acra.Base.Words.{is_negative}
use acra.Base.Outcome.{◌>>=◌, Outcome, ok, ok_pair, >>=-eq_ok}
use acra.Wire.{WireError, read_full, read_full-eq_ok, read_full-enough, copy_at-whole}
use acra.Postgres.Packet.{
  PacketHandler, read_data, reset, general_packet, read_general_packet, startup_packet,
  read_startup_packet, read_client_packet, marshal, is_startup, terminate_packet_bytes,
}

-- `readData` appends what it takes off the reader.
pub read_data-eq_ok :
    (p : PacketHandler) (stream : Bytes) {p' : PacketHandler} {rest : Bytes}
    → read_data p stream ≡ ok (p', rest)
    → (front : Bytes) × (p' ≡ record p { description_buf = p.description_buf ++ front })
      × (front ++ rest ≡ stream)
unfolding read_data
read_data-eq_ok p stream h = elim (Bool-cases (is_negative p.data_length)) [
  | inl negative ↦ let e = rw negative at h in cc
  | inr positive ↦ elim (Bool-cases (ltb (length stream) p.data_length)) [
    | inl short ↦ let e = rw (positive, short) at h in cc
    | inr enough ↦
        let parts = ok_pair (rw (positive, enough) at h) in
        (
          take p.data_length stream,
          sym parts.0,
          rw (sym parts.1) (take-append-drop p.data_length stream),
        )
  ]
]

-- what `Marshal` leaves out of a packet with a tag
abbrev pub lost : ℕ → Bytes
lost tag = if tag == 0 then 0 ∷ [] else []

module _ (p : PacketHandler) (whole : length p.description_length_buf ≡ 4) where
  -- a packet with its tag, which `readData` completes
  tagged-Transparent :
      (q : PacketHandler) (tag : ℕ) (buf rest : Bytes) {p' : PacketHandler} {rest' : Bytes}
      → q.message_type ≡ tag
      → q.description_length_buf ≡ buf
      → q.description_buf ≡ []
      → read_data q rest ≡ ok (p', rest')
      → lost tag ++ (marshal p' ++ rest') ≡ tag ∷ buf ++ rest
  unfolding marshal
  tagged-Transparent q tag buf rest {rest' = rest'} is_tag is_buf empty h =
      let (front, e, split) = read_data-eq_ok q rest h in
      let same = append_assoc buf front rest' ∙ ap (◌++◌ buf) split in
      elim (Bool-cases (tag == 0)) [
        | inl zero_tag ↦
            rw (e, is_tag, is_buf, empty, zero_tag)
              (ap (λ (t : Bytes). 0 ∷ t) same
                ∙ ap (λ (t : ℕ). t ∷ buf ++ rest) (sym ((==_iff tag 0).0 zero_tag)))
        | inr tagged ↦ rw (e, is_tag, is_buf, empty, tagged) (ap (◌∷◌ tag) same)
      ]

  general_packet-Transparent :
      (tag a b c d : ℕ) (rest : Bytes) {p' : PacketHandler} {rest' : Bytes}
      → general_packet (reset p) (tag ∷ a ∷ b ∷ c ∷ d ∷ []) rest ≡ ok (p', rest')
      → lost tag ++ (marshal p' ++ rest') ≡ tag ∷ a ∷ b ∷ c ∷ d ∷ rest
  unfolding general_packet marshal
  general_packet-Transparent tag a b c d rest h =
      let copied = copy_at-whole (a ∷ b ∷ c ∷ d ∷ []) p.description_length_buf (sym whole) in
      elim (Bool-cases (tag == b'X')) [
        | inr other ↦
            tagged-Transparent _ tag (a ∷ b ∷ c ∷ d ∷ []) rest refl copied refl (rw other at h)
        | inl last ↦
            elim (Bool-cases (bytes_eq terminate_packet_bytes (tag ∷ a ∷ b ∷ c ∷ d ∷ []))) [
              | inr longer ↦
                  tagged-Transparent _ tag (a ∷ b ∷ c ∷ d ∷ []) rest refl copied refl
                    (rw (last, longer) at h)
              | inl whole_packet ↦
                  let parts = ok_pair (rw (last, whole_packet) at h) in
                  let is_last = (==_iff tag b'X').0 last in
                  rw (sym parts.0, sym parts.1, copied, is_last) refl
            ]
      ]

  startup_packet-Transparent :
      (a b c d : ℕ) (tag rest : Bytes) {p' : PacketHandler} {rest' : Bytes}
      → startup_packet (reset p) (a ∷ b ∷ c ∷ d ∷ tag) rest ≡ ok (p', rest')
      → marshal p' ++ rest' ≡ a ∷ b ∷ c ∷ d ∷ tag ++ rest
  unfolding startup_packet marshal
  startup_packet-Transparent a b c d tag rest {rest' = rest'} h =
      let copied = copy_at-whole (a ∷ b ∷ c ∷ d ∷ []) p.description_length_buf (sym whole) in
      elim (Bool-cases (is_startup (a ∷ b ∷ c ∷ d ∷ tag))) [
        | inr other ↦ let e = rw other at h in cc
        | inl known ↦
            let ((q, rest1), read, marked) = >>=-eq_ok (read_data _ rest) _ (rw known at h) in
            let (front, e, split) = read_data-eq_ok _ rest read in
            let parts = ok_pair marked in
            rw (sym parts.0, sym parts.1, e, copied)
              (ap (λ (t : Bytes). a ∷ b ∷ c ∷ d ∷ t)
                (append_assoc tag front rest1 ∙ ap (◌++◌ tag) split))
      ]

-- A header that was read is as long as it was asked for.
read_full-le :
    {A : Type 0} (n : ℕ) (stream : Bytes) (f : Bytes × Bytes → Outcome WireError A) {a : A}
    → (read_full n stream >>= f) ≡ ok a
    → n ≤ length stream
read_full-le n stream f h =
    let ((front, rest), read, last) = >>=-eq_ok (read_full n stream) f h in
    (read_full-eq_ok n stream read).0

module _ (p : PacketHandler) (whole : length p.description_length_buf ≡ 4) where
  read_general_packet-Transparent :
      (stream : Bytes) {p' : PacketHandler} {rest : Bytes}
      → read_general_packet p stream ≡ ok (p', rest)
      → lost (get_or stream 0 1) ++ (marshal p' ++ rest) ≡ stream
  unfolding read_general_packet
  read_general_packet-Transparent (tag ∷ a ∷ b ∷ c ∷ d ∷ tail) h =
      general_packet-Transparent p whole tag a b c d tail
        (rw (read_full-enough 5 (tag ∷ a ∷ b ∷ c ∷ d ∷ tail) (omega arith)) at h)
  read_general_packet-Transparent stream h =
      let enough : 5 ≤ length stream =
        read_full-le 5 stream (λ r. general_packet (reset p) r.0 r.1) h in
      absurd (omega (arith, enough))

  read_startup_packet-Transparent :
      (stream : Bytes) {p' : PacketHandler} {rest : Bytes}
      → read_startup_packet p stream ≡ ok (p', rest)
      → marshal p' ++ rest ≡ stream
  unfolding read_startup_packet
  read_startup_packet-Transparent (a ∷ b ∷ c ∷ d ∷ tail) h =
      let enough = read_full-le 8 (a ∷ b ∷ c ∷ d ∷ tail) _ h in
      startup_packet-Transparent p whole a b c d (take 4 tail) (drop 4 tail)
        (rw (read_full-enough 8 (a ∷ b ∷ c ∷ d ∷ tail) enough) at h)
      ∙ ap (λ (t : Bytes). a ∷ b ∷ c ∷ d ∷ t) (take-append-drop 4 tail)
  read_startup_packet-Transparent stream h =
      let enough : 8 ≤ length stream =
        read_full-le 8 stream (λ r. startup_packet (reset p) r.0 r.1) h in
      absurd (omega (arith, enough))

-- the branch that an outcome came from
if-eq_ok :
    {A : Type 0} (test : Bool) (x y : Outcome WireError A) {a : A}
    → (if test then x else y) ≡ ok a
    → ((test ≡ true) × (x ≡ ok a)) ⊎ ((test ≡ false) × (y ≡ ok a))
if-eq_ok true x y h = inl (refl, h)
if-eq_ok false x y h = inr (refl, h)

-- Marshal gives back the bytes that ReadClientPacket took off the connection, whatever the packet is
-- and whether the connection is started. The only byte that is lost is a tag of 0 in front of a
-- packet of a started connection.
pub read_client_packet-marshal :
    (p : PacketHandler) (stream : Bytes) {p' : PacketHandler} {rest : Bytes}
    → length p.description_length_buf ≡ 4
    → read_client_packet p stream ≡ ok (p', rest)
    → (if p.started then lost (get_or stream 0 1) else []) ++ (marshal p' ++ rest) ≡ stream
unfolding read_client_packet
read_client_packet-marshal p stream whole h =
    elim (if-eq_ok p.started (read_general_packet p stream) (read_startup_packet p stream) h) [
      | inl (started, read) ↦ rw started (read_general_packet-Transparent p whole stream read)
      | inr (fresh, read) ↦ rw fresh (read_startup_packet-Transparent p whole stream read)
    ]
