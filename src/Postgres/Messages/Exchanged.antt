-- ===== src/Postgres/Messages/Exchanged.antt =====
-- What becomes of a Parse packet whose query is exchanged.
use acra.Base.{
  ℕ, zero, suc, ◌≤◌, ◌+◌, ◌*◌, ◌≡◌, refl, sym, ap, ◌∙◌, false, List, [], ◌∷◌, ◌++◌, Bytes, ◌==◌,
  if◌then◌else◌, ltb, Bool-cases, inl, inr, ◌⊎◌, length, take, drop, append_assoc, ==_iff,
  take-append-drop, length-append, length-take, arith, ltb→ge,
}
use acra.Base.Outcome.{ok, >>=-eq_ok, ok_pair, ok_injective}
use acra.Wire.{be_value}
use acra.Postgres.Messages.{
  cut_terminator, ParsePacket, join, read_params, parse_tail, new_parse_packet, marshal_parse,
  parse_length, replace_query,
}

pub cut_terminator-eq_ok :
    (b : Bytes) {front rest : Bytes} → cut_terminator b ≡ ok (front, rest) → front ++ 0 ∷ rest ≡ b
unfolding cut_terminator
cut_terminator-eq_ok [] h = cc
cut_terminator-eq_ok (x ∷ b) h = elim (Bool-cases (x == 0)) [
  | inl last ↦
      let parts = ok_pair (rw last at h) in
      let is_zero = (==_iff x 0).0 last in rw (sym parts.0, sym parts.1, is_zero) refl
  | inr more ↦
      let ((front, rest), later, made) = >>=-eq_ok (cut_terminator b) _ (rw more at h) in
      let parts = ok_pair made in
      rw (sym parts.0, sym parts.1) (ap (◌∷◌ x) (cut_terminator-eq_ok b later))
]

read_params-eq_ok :
    (n : ℕ) (b : Bytes) {params : List Bytes}
    → read_params n b ≡ ok params
    → (behind : Bytes) × (join params ++ behind ≡ b)
unfolding read_params
read_params-eq_ok zero b h = (b, rw (sym (ok_injective h)) refl)
read_params-eq_ok (suc n) b h = elim (Bool-cases (ltb (length b) 4)) [
  | inl short ↦ let e = rw short at h in cc
  | inr enough ↦
      let (params, later, made) = >>=-eq_ok (read_params n (drop 4 b)) _ (rw enough at h) in
      let (behind, e) = read_params-eq_ok n (drop 4 b) later in
      (
        behind,
        rw (sym (ok_injective made)) (
            append_assoc (take 4 b) (join params) behind
            ∙ ap (◌++◌ (take 4 b)) e
            ∙ take-append-drop 4 b),
      )
]

-- each parameter is of four bytes
length-join :
    (n : ℕ) (b : Bytes) {params : List Bytes}
    → read_params n b ≡ ok params
    → length (join params) ≡ 4 * length params
unfolding read_params
length-join zero b h = rw (sym (ok_injective h)) refl
length-join (suc n) b h = elim (Bool-cases (ltb (length b) 4)) [
  | inl short ↦ let e = rw short at h in cc
  | inr enough ↦
      let (params, read, made) = >>=-eq_ok (read_params n (drop 4 b)) _ (rw enough at h) in
      rw (sym (ok_injective made)) (
        omega (
          arith,
          length-join n (drop 4 b) read,
          length-append (take 4 b) (join params),
          length-take 4 b (ltb→ge (length b) 4 enough),
        ))
]

length-read_params :
    (n : ℕ) (b : Bytes) {params : List Bytes} → read_params n b ≡ ok params → length params ≡ n
unfolding read_params
length-read_params zero b h = ap length (sym (ok_injective h))
length-read_params (suc n) b h = elim (Bool-cases (ltb (length b) 4)) [
  | inl short ↦ let e = rw short at h in cc
  | inr enough ↦
      let (params, read, made) = >>=-eq_ok (read_params n (drop 4 b)) _ (rw enough at h) in
      rw (sym (ok_injective made)) (ap suc (length-read_params n (drop 4 b) read))
]

some_params :
    (n : ℕ) (b : Bytes) {params : List Bytes}
    → (if length b == 0 then ok [] else read_params n b) ≡ ok params
    → (behind : Bytes) × (join params ++ behind ≡ b)
      × (length (join params) ≡ 4 * length params)
      × ((length params ≡ n) ⊎ (length b ≡ 0))
some_params n b h = elim (Bool-cases (length b == 0)) [
  | inl empty ↦
      let e = ok_injective (rw empty at h) in
      (b, rw (sym e) refl, rw (sym e) refl, inr ((==_iff (length b) 0).0 empty))
  | inr more ↦
      let read = rw more at h in
      let (behind, e) = read_params-eq_ok n b read in
      (behind, e, length-join n b read, inl (length-read_params n b read))
]

nothing_behind :
    {X : Type 0} (b : Bytes)
    → ltb (length b) 2 ≡ false
    → X ⊎ (length (drop 2 b) ≡ 0)
    → X ⊎ (length b ≡ 2)
nothing_behind b enough (inl x) = inl x
nothing_behind [] enough (inr _) = cc
nothing_behind (x ∷ []) enough (inr _) = cc
nothing_behind (x ∷ y ∷ []) enough (inr _) = inr refl
nothing_behind (x ∷ y ∷ z ∷ b) enough (inr nothing) = cc

-- What `Marshal` gives for a Parse packet with a new query, by the parts of the packet: as many bytes
-- as `Length` says, which are the bytes of the packet with the query exchanged, up to the end of the
-- last parameter.
pub record IsReplaced (new b : Bytes) (p : ParsePacket) : Type 0 where
  pub name : Bytes
  pub query : Bytes
  pub tail : Bytes
  pub behind : Bytes
  pub is_packet : name ++ 0 ∷ (query ++ 0 ∷ tail) ≡ b
  pub is_name : p.name ≡ name ++ 0 ∷ []
  pub is_query : p.query ≡ query ++ 0 ∷ []
  pub is_written : marshal_parse (replace_query new p) ++ behind ≡ name ++ 0 ∷ (new ++ 0 ∷ tail)
  pub is_long :
      length (marshal_parse (replace_query new p))
      ≡ length name + length new + 4 + 4 * length p.params
  pub is_length : parse_length (replace_query new p) ≡ length (marshal_parse (replace_query new p))
  pub is_whole : (length p.params ≡ be_value p.params_num) ⊎ (length tail ≡ 2)

module _ (new name query b behind : Bytes) (params : List Bytes) where
  abbrev parsed : ParsePacket
  parsed = record {
    name = name ++ 0 ∷ [];
    query = query ++ 0 ∷ [];
    params_num = take 2 b;
    params = params;
  }

  length-parsed :
      2 ≤ length b
      → length (join params) ≡ 4 * length params
      → length (marshal_parse (replace_query new parsed))
        ≡ length name + length new + 4 + 4 * length params
  unfolding marshal_parse replace_query
  length-parsed enough four =
      let sum = length-append (take 2 b) (join params) in
      let sum1 = length-append (new ++ 0 ∷ []) (take 2 b ++ join params) in
      let sum2 = length-append (name ++ 0 ∷ []) ((new ++ 0 ∷ []) ++ (take 2 b ++ join params)) in
      omega (
        arith,
        four,
        sum,
        sum1,
        sum2,
        length-append new (0 ∷ []),
        length-append name (0 ∷ []),
        length-take 2 b enough,
      )

  parsed-IsReplaced :
      2 ≤ length b
      → ltb (length b) 2 ≡ false
      → join params ++ behind ≡ drop 2 b
      → length (join params) ≡ 4 * length params
      → (length params ≡ be_value (take 2 b)) ⊎ (length (drop 2 b) ≡ 0)
      → IsReplaced new (name ++ 0 ∷ (query ++ 0 ∷ b)) parsed
  unfolding marshal_parse replace_query parse_length
  parsed-IsReplaced enough long e four all = record {
    name = name;
    query = query;
    tail = b;
    behind = behind;
    is_packet = refl;
    is_name = refl;
    is_query = refl;
    is_written = simp (append_assoc, e, take-append-drop 2 b);
    is_long = length-parsed enough four;
    is_length = omega (
      arith,
      length-parsed enough four,
      length-append new (0 ∷ []),
      length-append name (0 ∷ []),
      length-take 2 b enough,
    );
    is_whole = nothing_behind b long all;
  }

parse_tail-IsReplaced :
    (new name query b : Bytes) {p : ParsePacket}
    → parse_tail name query b ≡ ok p
    → IsReplaced new (name ++ 0 ∷ (query ++ 0 ∷ b)) p
unfolding parse_tail
parse_tail-IsReplaced new name query b h = elim (Bool-cases (ltb (length b) 2)) [
  | inl short ↦ let e = rw short at h in cc
  | inr enough ↦
      let (params, read, made) =
        >>=-eq_ok
          (if length (drop 2 b) == 0 then ok [] else read_params (be_value (take 2 b)) (drop 2 b)) _
          (rw enough at h) in
      let (behind, e, four, all) = some_params (be_value (take 2 b)) (drop 2 b) read in
      rw (sym (ok_injective made)) (
        parsed-IsReplaced new name query b behind params (ltb→ge (length b) 2 enough) enough e four
          all)
]

-- A Parse packet that is read, with its query exchanged.
pub replace_query-IsReplaced :
    (new b : Bytes) {p : ParsePacket} → new_parse_packet b ≡ ok p → IsReplaced new b p
unfolding new_parse_packet
replace_query-IsReplaced new b {p} h =
    let ((name, rest), first, h1) = >>=-eq_ok (cut_terminator b) _ h in
    let ((query, tail), second, h2) = >>=-eq_ok (cut_terminator rest) _ h1 in
    let same : name ++ 0 ∷ (query ++ 0 ∷ tail) ≡ b =
      ap (λ (t : Bytes). name ++ 0 ∷ t) (cut_terminator-eq_ok rest second)
      ∙ cut_terminator-eq_ok b first in
    rw same at (parse_tail-IsReplaced new name query tail h2)
