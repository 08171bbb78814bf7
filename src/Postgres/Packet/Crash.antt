-- ===== src/Postgres/Packet/Crash.antt =====
-- Where ReadClientPacket panics: a length that is smaller than what it counts.
use acra.Base.{
  ℕ, ◌<◌, ◌≡◌, ◌↔◌, Bool, true, false, ◌&&◌, [], ◌∷◌, Bytes, inl, inr, Bool-cases, arith, length,
  ltb, bytes_eq, if◌then◌else◌,
}
use acra.Base.Words.{is_negative, IsBytes}
use acra.Base.Outcome.{Outcome, panic, ◌>>=◌}
use acra.Wire.{WireError, read_full, read_full-enough, be_value}
use acra.Postgres.Packet.{
  PacketHandler, read_data, reset, general_packet, read_general_packet, startup_packet,
  read_startup_packet, read_client_packet, is_startup,
}

-- The header of a packet claims fewer bytes than the length and the tag of a startup packet have.
abbrev pub is_too_short : Bool → Bytes → Bool
is_too_short true (tag ∷ a ∷ b ∷ c ∷ d ∷ rest) = ltb (be_value (a ∷ b ∷ c ∷ d ∷ [])) 4
is_too_short false (a ∷ b ∷ c ∷ d ∷ e ∷ f ∷ g ∷ h ∷ rest) =
    is_startup (a ∷ b ∷ c ∷ d ∷ e ∷ f ∷ g ∷ h ∷ []) && ltb (be_value (a ∷ b ∷ c ∷ d ∷ [])) 8
is_too_short _ _ = false

read_data-panic :
    (p : PacketHandler) (stream : Bytes)
    → (read_data p stream ≡ panic) ↔ (is_negative p.data_length ≡ true)
unfolding read_data
read_data-panic p stream = ground arith

general_packet-panic :
    (p : PacketHandler) (tag a b c d : ℕ) (rest : Bytes)
    → IsBytes (a ∷ b ∷ c ∷ d ∷ [])
    → (general_packet p (tag ∷ a ∷ b ∷ c ∷ d ∷ []) rest ≡ panic)
      ↔ (ltb (be_value (a ∷ b ∷ c ∷ d ∷ [])) 4 ≡ true)
unfolding general_packet read_data bytes_eq
general_packet-panic p tag a b c d rest small = ground arith

startup_packet-panic :
    (p : PacketHandler) (a b c d e f g h : ℕ) (rest : Bytes)
    → IsBytes (a ∷ b ∷ c ∷ d ∷ [])
    → (startup_packet p (a ∷ b ∷ c ∷ d ∷ e ∷ f ∷ g ∷ h ∷ []) rest ≡ panic) ↔ (
        (is_startup (a ∷ b ∷ c ∷ d ∷ e ∷ f ∷ g ∷ h ∷ []) && ltb (be_value (a ∷ b ∷ c ∷ d ∷ [])) 8)
        ≡ true)
unfolding startup_packet read_data
startup_packet-panic p a b c d e f g h rest small =
    elim (Bool-cases (is_startup (a ∷ b ∷ c ∷ d ∷ e ∷ f ∷ g ∷ h ∷ []))) [
      | inl known ↦ rw known (ground arith)
      | inr other ↦ rw other (ground arith)
    ]

read_full-short :
    {A : Type 0} (n : ℕ) (stream : Bytes) (f : Bytes × Bytes → Outcome WireError A)
    → length stream < n
    → (read_full n stream >>= f) ≡ panic
    → ⊥
unfolding read_full
read_full-short n stream f short h = ground arith

module _ (p : PacketHandler) where
  read_general_packet-panic :
      (stream : Bytes)
      → IsBytes stream
      → (read_general_packet p stream ≡ panic) ↔ (is_too_short true stream ≡ true)
  unfolding read_general_packet
  read_general_packet-panic (tag ∷ a ∷ b ∷ c ∷ d ∷ rest) small =
      rw (read_full-enough 5 (tag ∷ a ∷ b ∷ c ∷ d ∷ rest) (omega arith))
        (general_packet-panic (reset p) tag a b c d rest (omega arith))
  read_general_packet-panic stream small = (
    λ h. absurd (read_full-short 5 stream (λ r. general_packet (reset p) r.0 r.1) (omega arith) h),
    λ h. cc,
  )

  read_startup_packet-panic :
      (stream : Bytes)
      → IsBytes stream
      → (read_startup_packet p stream ≡ panic) ↔ (is_too_short false stream ≡ true)
  unfolding read_startup_packet
  read_startup_packet-panic (a ∷ b ∷ c ∷ d ∷ e ∷ f ∷ g ∷ i ∷ rest) small =
      rw (read_full-enough 8 (a ∷ b ∷ c ∷ d ∷ e ∷ f ∷ g ∷ i ∷ rest) (omega arith))
        (startup_packet-panic (reset p) a b c d e f g i rest (omega arith))
  read_startup_packet-panic stream small = (
    λ h. absurd (read_full-short 8 stream (λ r. startup_packet (reset p) r.0 r.1) (omega arith) h),
    λ h. cc,
  )

if-panic :
    (test : Bool) (x y : Outcome WireError (PacketHandler × Bytes)) (stream : Bytes)
    → (x ≡ panic) ↔ (is_too_short true stream ≡ true)
    → (y ≡ panic) ↔ (is_too_short false stream ≡ true)
    → ((if test then x else y) ≡ panic) ↔ (is_too_short test stream ≡ true)
if-panic true x y stream h k = h
if-panic false x y stream h k = k

-- ReadClientPacket panics exactly on a packet of a started connection whose length is below 4, and on
-- a startup packet whose length is below 8; what is sent behind does not matter. Every element of the
-- stream is a byte.
pub read_client_packet-panic :
    (p : PacketHandler) (stream : Bytes)
    → IsBytes stream
    → (read_client_packet p stream ≡ panic) ↔ (is_too_short p.started stream ≡ true)
unfolding read_client_packet
read_client_packet-panic p stream small =
    if-panic p.started (read_general_packet p stream) (read_startup_packet p stream) stream
      (read_general_packet-panic p stream small) (read_startup_packet-panic p stream small)
