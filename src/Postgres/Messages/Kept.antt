-- ===== src/Postgres/Messages/Kept.antt =====
-- A Bind packet that was taken apart is put together as it was.
use acra.Base.{
  ℕ, ◌+◌, ◌≡◌, refl, sym, ap, ◌∙◌, ◌∷◌, ◌++◌, Bytes, length, append_assoc, length-append, arith,
}
use acra.Base.Words.{IsBytes}
use acra.Base.Outcome.{ok, >>=-eq_ok, ok_injective}
use acra.Postgres.Messages.{
  cut_terminator, BindPacket, read_uint16_array, read_parameter_array, new_bind_packet,
  write_uint16_array, write_parameter_array, marshal_bind,
}
use acra.Postgres.Messages.Exchanged.{cut_terminator-eq_ok}
use acra.Postgres.Messages.Lengths.{
  bind_length, length-write_uint16_array, length-write_parameter_array,
}
use acra.Postgres.Messages.Written.{
  IsBytes-behind, read_uint16_array-Rewrites, read_parameter_array-Rewrites,
}

marshal_bind-parts :
    (p : BindPacket) (formats values results : Bytes)
    → write_uint16_array p.param_formats ≡ ok formats
    → write_parameter_array p.param_values ≡ ok values
    → write_uint16_array p.result_formats ≡ ok results
    → marshal_bind p ≡ ok (p.portal ++ (0 ∷ p.statement ++ (0 ∷ formats ++ (values ++ results))))
unfolding marshal_bind
marshal_bind-parts p formats values results f v r = rw (f, v, r) refl

parts-append :
    (portal statement formats values results b5 : Bytes) {b b1 b2 b3 b4 : Bytes}
    → results ++ b5 ≡ b4
    → values ++ b4 ≡ b3
    → formats ++ b3 ≡ b2
    → statement ++ 0 ∷ b2 ≡ b1
    → portal ++ 0 ∷ b1 ≡ b
    → portal ++ (0 ∷ statement ++ (0 ∷ formats ++ (values ++ results))) ++ b5 ≡ b
parts-append portal statement formats values results b5 e4 e3 e2 e1 e0 =
    simp (append_assoc, e4, e3, e2, e1, e0)

length-parts :
    (portal statement formats values results : Bytes) {f v r : ℕ}
    → length formats ≡ f
    → length values ≡ v
    → length results ≡ r
    → length (portal ++ (0 ∷ statement ++ (0 ∷ formats ++ (values ++ results))))
      ≡ length portal + 1 + length statement + 1 + f + v + r
length-parts portal statement formats values results hf hv hr = omega (
  arith,
  hf,
  hv,
  hr,
  length-append portal (0 ∷ statement ++ (0 ∷ formats ++ (values ++ results))),
  length-append statement (0 ∷ formats ++ (values ++ results)),
  length-append formats (values ++ results),
  length-append values results,
)

-- A Bind packet that NewBindPacket accepts is written by MarshalInto, without an error, as the
-- first bytes that the client sent: as many as its portal, statement, formats, values and result
-- formats take, so that only bytes behind the last format are lost. Every element of the packet is
-- a byte.
pub new_bind_packet-marshal :
    (b : Bytes) {p : BindPacket}
    → IsBytes b
    → new_bind_packet b ≡ ok p
    → (out behind : Bytes) × (marshal_bind p ≡ ok out)
      × (out ++ behind ≡ b)
      × (length out ≡ bind_length p)
unfolding new_bind_packet
new_bind_packet-marshal b small h =
    let ((portal, b1), h0, k0) = >>=-eq_ok (cut_terminator b) _ h in
    let ((statement, b2), h1, k1) = >>=-eq_ok (cut_terminator b1) _ k0 in
    let ((formats, b3), h2, k2) = >>=-eq_ok (read_uint16_array b2) _ k1 in
    let ((values, b4), h3, k3) = >>=-eq_ok (read_parameter_array b3) _ k2 in
    let ((results, b5), h4, made) = >>=-eq_ok (read_uint16_array b4) _ k3 in
    let e0 = cut_terminator-eq_ok b h0 in
    let e1 = cut_terminator-eq_ok b1 h1 in
    let small1 = (IsBytes-behind portal (0 ∷ b1) (rw (sym e0) at small)).1 in
    let small2 = (IsBytes-behind statement (0 ∷ b2) (rw (sym e1) at small1)).1 in
    let ((out2, w2, e2), small3) = read_uint16_array-Rewrites b2 small2 h2 in
    let ((out3, w3, e3), small4) = read_parameter_array-Rewrites b3 small3 h3 in
    let ((out4, w4, e4), small5) = read_uint16_array-Rewrites b4 small4 h4 in
    (
      portal ++ (0 ∷ statement ++ (0 ∷ out2 ++ (out3 ++ out4))),
      b5,
      ap marshal_bind (sym (ok_injective made)) ∙ marshal_bind-parts _ out2 out3 out4 w2 w3 w4,
      parts-append portal statement out2 out3 out4 b5 e4 e3 e2 e1 e0,
      length-parts portal statement out2 out3 out4 (length-write_uint16_array formats w2)
            (length-write_parameter_array values w3) (length-write_uint16_array results w4)
          ∙ ap bind_length (ok_injective made),
    )
