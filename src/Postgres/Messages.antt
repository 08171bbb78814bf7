-- ===== src/Postgres/Messages.antt =====
-- The messages of the extended protocol that the proxy takes apart and puts together again: Parse,
-- Bind and Execute of decryptor/postgresql/utils.go. A slice of the message has no spare capacity.
pub mod Written
pub mod Exchanged
pub mod Lengths
pub mod Kept
use acra.Base.{
  ℕ, zero, suc, ◌+◌, ◌*◌, ◌%◌, ◌≡◌, Bool, true, false, Option, none, some, List, [], ◌∷◌, ◌++◌,
  Bytes, ◌==◌, if◌then◌else◌, ltb, leb, length, take, drop,
}
use acra.Base.Outcome.{Outcome, ok, err, panic, ◌>>=◌, ◌>>◌, guard}
use acra.Wire.{WireError, terminator_not_found, packet_truncated, array_too_big, be_bytes, be_value}

-- what is in front of the first terminator and behind it, by `bytes.Index`
unfoldable pub cut_terminator : Bytes → Outcome WireError (Bytes × Bytes)
cut_terminator [] = err terminator_not_found
cut_terminator (b ∷ bs) =
    let later = cut_terminator bs in
    if b == 0 then ok ([], bs) else (later >>= λ (front, rest). ok (b ∷ front, rest))

-- `ParsePacket`, whose name and query keep their terminators
pub record ParsePacket : Type 0 where
  pub name : Bytes
  pub query : Bytes
  pub params_num : Bytes
  pub params : List Bytes

abbrev pub join : List Bytes → Bytes
join [] = []
join (b ∷ bs) = b ++ join bs

-- the loop of `NewParsePacket`: a slice of 4 bytes panics where fewer are left
unfoldable pub read_params : ℕ → Bytes → Outcome WireError (List Bytes)
read_params zero b = ok []
read_params (suc n) b =
    let later = read_params n (drop 4 b) in
    if ltb (length b) 4 then panic else (later >>= λ params. ok (take 4 b ∷ params))

-- the end of `NewParsePacket`, behind the query; without bytes behind the number, no parameter is
-- read
unfoldable pub parse_tail : Bytes → Bytes → Bytes → Outcome WireError ParsePacket
unfolding read_params
parse_tail name query b =
    if ltb (length b) 2
    then panic
    else ((if length (drop 2 b) == 0 then ok [] else read_params (be_value (take 2 b)) (drop 2 b))
        >>= λ params. ok (record {
          name = name ++ 0 ∷ [];
          query = query ++ 0 ∷ [];
          params_num = take 2 b;
          params = params;
        }))

-- `NewParsePacket`
unfoldable pub new_parse_packet : Bytes → Outcome WireError ParsePacket
unfolding cut_terminator parse_tail
new_parse_packet b = do
  (name, rest) ← cut_terminator b
  (query, tail) ← cut_terminator rest
  parse_tail name query tail

-- `ParsePacket.Marshal`
unfoldable pub marshal_parse : ParsePacket → Bytes
marshal_parse p = p.name ++ (p.query ++ (p.params_num ++ join p.params))

-- `ParsePacket.Length`
unfoldable pub parse_length : ParsePacket → ℕ
parse_length p = length p.name + length p.query + length p.params_num + 4 * length p.params

-- `ParsePacket.ReplaceQuery`
unfoldable pub replace_query : Bytes → ParsePacket → ParsePacket
replace_query query p = record p { query = query ++ 0 ∷ [] }

-- `BindPacket`; a null is `none`.
pub record BindPacket : Type 0 where
  pub portal : Bytes
  pub statement : Bytes
  pub param_formats : List ℕ
  pub param_values : List (Option Bytes)
  pub result_formats : List ℕ

abbrev pub read_items : ℕ → Bytes → List ℕ
read_items zero b = []
read_items (suc n) b = be_value (take 2 b) ∷ read_items n (drop 2 b)

-- `readUint16Array`
unfoldable pub read_uint16_array : Bytes → Outcome WireError (List ℕ × Bytes)
read_uint16_array b =
    let count = be_value (take 2 b) in
    if ltb (length b) 2
    then err packet_truncated
    else if ltb (length (drop 2 b)) (2 * count)
    then err packet_truncated
    else ok (read_items count (drop 2 b), drop (2 * count) (drop 2 b))

-- one turn of the loop of `readParameterArray`
unfoldable pub read_parameter : Bytes → Outcome WireError (Option Bytes × Bytes)
read_parameter b =
    let size = be_value (take 4 b) in
    if ltb (length b) 4
    then err packet_truncated
    else if size == 0xffffffff
    then ok (none, drop 4 b)
    else if ltb (length (drop 4 b)) size
    then err packet_truncated
    else ok (some (take size (drop 4 b)), drop size (drop 4 b))

unfoldable pub read_parameters : ℕ → Bytes → Outcome WireError (List (Option Bytes) × Bytes)
unfolding read_parameter
read_parameters zero b = ok ([], b)
read_parameters (suc n) b = do
  (value, rest) ← read_parameter b
  (values, end) ← read_parameters n rest
  ok (value ∷ values, end)

-- `readParameterArray`
unfoldable pub read_parameter_array : Bytes → Outcome WireError (List (Option Bytes) × Bytes)
unfolding read_parameters
read_parameter_array b =
    if ltb (length b) 2
    then err packet_truncated
    else read_parameters (be_value (take 2 b)) (drop 2 b)

-- `NewBindPacket`
unfoldable pub new_bind_packet : Bytes → Outcome WireError BindPacket
unfolding cut_terminator read_uint16_array read_parameter_array
new_bind_packet b = do
  (portal, b1) ← cut_terminator b
  (statement, b2) ← cut_terminator b1
  (param_formats, b3) ← read_uint16_array b2
  (param_values, b4) ← read_parameter_array b3
  (result_formats, b5) ← read_uint16_array b4
  ok (record {
    portal = portal;
    statement = statement;
    param_formats = param_formats;
    param_values = param_values;
    result_formats = result_formats;
  })

abbrev pub write_items : List ℕ → Bytes
write_items [] = []
write_items (x ∷ xs) = be_bytes 2 x ++ write_items xs

-- `writeUint16Array`
unfoldable pub write_uint16_array : List ℕ → Outcome WireError Bytes
write_uint16_array values =
    if ltb 0xffff (length values)
    then err array_too_big
    else ok (be_bytes 2 (length values) ++ write_items values)

-- one turn of the loop of `writeParameterArray`
unfoldable pub write_parameter : Option Bytes → Outcome WireError Bytes
write_parameter none = ok (be_bytes 4 0xffffffff)
write_parameter (some b) =
    if ltb 0xffffffff (length b) then err array_too_big else ok (be_bytes 4 (length b) ++ b)

unfoldable pub write_parameters : List (Option Bytes) → Outcome WireError Bytes
unfolding write_parameter
write_parameters [] = ok []
write_parameters (v ∷ vs) = do b ← write_parameter v; bs ← write_parameters vs; ok (b ++ bs)

-- `writeParameterArray`
unfoldable pub write_parameter_array : List (Option Bytes) → Outcome WireError Bytes
unfolding write_parameters
write_parameter_array values =
    if ltb 0xffff (length values)
    then err array_too_big
    else (write_parameters values >>= λ b. ok (be_bytes 2 (length values) ++ b))

-- `BindPacket.MarshalInto` an empty buffer
unfoldable pub marshal_bind : BindPacket → Outcome WireError Bytes
unfolding write_uint16_array write_parameter_array
marshal_bind p = do
  param_formats ← write_uint16_array p.param_formats
  param_values ← write_parameter_array p.param_values
  result_formats ← write_uint16_array p.result_formats
  ok (p.portal ++ (0 ∷ p.statement ++ (0 ∷ param_formats ++ (param_values ++ result_formats))))

-- `ExecutePacket`
pub record ExecutePacket : Type 0 where
  pub portal : Bytes
  pub max_rows : ℕ

-- `NewExecutePacket`
unfoldable pub new_execute_packet : Bytes → Outcome WireError ExecutePacket
unfolding cut_terminator
new_execute_packet b = do
  (portal, rest) ← cut_terminator b
  guard (leb 4 (length rest)) packet_truncated
  ok (record { portal = portal; max_rows = be_value (take 4 rest) })
