-- ===== src/Postgres/Rows.antt =====
-- The rows of data that the database answers with: `parseColumns` and `updateDataFromColumns` of
-- decryptor/postgresql/packet_handler.go, and handleQueryDataPacket of pg_decryptor.go.
pub mod Columns
pub mod Replaced
use acra.Base.{
  ℕ, zero, suc, ◌+◌, ◌-◌, ◌*◌, ◌%◌, ◌≡◌, Bool, true, false, ◌||◌, Option, none, some, List, [], ◌∷◌,
  ◌++◌, Bytes, ◌==◌, if◌then◌else◌, ltb, leb, length, take, drop, get_elem?,
}
use acra.Base.Outcome.{Outcome, ok, err, panic, ◌>>=◌}
use acra.Wire.{WireError, not_enough_formats, unknown_format, read_full, be_bytes, be_value}
use acra.Postgres.Packet.{PacketHandler, ColumnData, update_packet_length}

-- The formats that a Bind packet names: text and binary.
pub data BoundValueFormat : Type 0 where
  text_format binary_format : BoundValueFormat

abbrev pub known_format : ℕ → Outcome WireError BoundValueFormat
known_format format =
    if format == 0
    then ok text_format
    else if format == 1
    then ok binary_format
    else err unknown_format

-- `GetParameterFormatByIndex`
unfoldable pub get_parameter_format_by_index : ℕ → List ℕ → Outcome WireError BoundValueFormat
get_parameter_format_by_index i [] = ok text_format
get_parameter_format_by_index i (f ∷ []) = known_format f
get_parameter_format_by_index i params = elim (get_elem? params i) [
  | none ↦ err not_enough_formats
  | some f ↦ known_format f
]

abbrev pub format_code : BoundValueFormat → ℕ
format_code text_format = 0
format_code binary_format = 1

-- `GetResultFormats`, from an index on
unfoldable pub result_formats : List ℕ → ℕ → List ℕ → Outcome WireError (List ℕ)
unfolding get_parameter_format_by_index
result_formats all i [] = ok []
result_formats all i (f ∷ fs) = do
  format ← get_parameter_format_by_index i all
  rest ← result_formats all (suc i) fs
  ok (format_code format ∷ rest)

-- the formats of a row: those of the Bind packet, or text for a simple query
unfoldable pub row_formats : Option (List ℕ) → Outcome WireError (List ℕ)
unfolding result_formats
row_formats none = ok (0 ∷ [])
row_formats (some formats) = result_formats formats 0 formats

-- `ColumnData.Length`
abbrev pub column_length : ColumnData → ℕ
column_length c = if c.is_null then 0 else be_value c.length_buf

-- `NullColumnValue` as a length
abbrev pub null_length : ℕ
null_length = 0xffffffff

-- `readData` of a new column; one without content reads nothing
unfoldable pub read_content : Bytes → Bytes → Outcome WireError (ColumnData × Bytes)
unfolding read_full
read_content length_buf stream =
    if be_value length_buf == null_length
    then ok
        (record { length_buf = length_buf; content = []; changed = false; is_null = true }, stream)
    else (read_full (be_value length_buf) stream >>= λ (content, rest). ok (
      record { length_buf = length_buf; content = content; changed = false; is_null = false },
      rest,
    ))

-- The loop of `parseColumns`, by the columns left and the index of the next one: `ReadLength`, the
-- format, and `readData`
unfoldable pub read_columns : ℕ → ℕ → List ℕ → Bytes → Outcome WireError (List ColumnData)
unfolding read_full read_content get_parameter_format_by_index
read_columns zero i formats stream = ok []
read_columns (suc n) i formats stream = do
  (length_buf, behind) ← read_full 4 stream
  format ← get_parameter_format_by_index i formats
  (column, rest) ← read_content length_buf behind
  columns ← read_columns n (suc i) formats rest
  ok (column ∷ columns)

-- `parseColumns`, of a buffer without spare capacity; without columns, those of the handler stay
unfoldable pub parse_columns : List ℕ → PacketHandler → Outcome WireError PacketHandler
unfolding read_columns
parse_columns formats p =
    let count = be_value (take 2 p.description_buf) in
    if ltb (length p.description_buf) 2
    then panic
    else if count == 0
    then ok (record p { column_count = 0 })
    else do
      columns ← read_columns count 0 formats (drop 2 p.description_buf)
      ok (record p { column_count = count; columns = columns })

-- `SetData`
abbrev pub set_data : Bytes → ColumnData → ColumnData
set_data new c = record c { changed = true; content = new; length_buf = be_bytes 4 (length new) }

abbrev pub any_changed : List ColumnData → Bool
any_changed [] = false
any_changed (c ∷ cs) = c.changed || any_changed cs

abbrev pub column_bytes : List ColumnData → Bytes
column_bytes [] = []
column_bytes (c ∷ cs) = c.length_buf ++ (c.content ++ column_bytes cs)

abbrev pub column_lengths : List ColumnData → ℕ
column_lengths [] = 0
column_lengths (c ∷ cs) = column_length c + column_lengths cs

-- `updateDataFromColumns`, of a packet whose columns are as many as it counts
unfoldable pub update_data_from_columns : PacketHandler → PacketHandler
update_data_from_columns p =
    if any_changed p.columns
    then update_packet_length (p.column_count * 4 + 2 + column_lengths p.columns)
        (record p { description_buf = be_bytes 2 p.column_count ++ column_bytes p.columns })
    else p

-- A setting of a column, by the test of handleQueryDataPacket, which lets the index be the length:
-- the access panics there.
unfoldable pub setting_at :
    {S : Type 0} → Option (List (Option S)) → ℕ → Outcome WireError (Option S)
setting_at none i = ok none
setting_at (some settings) i =
    if leb i (length settings)
    then elim (get_elem? settings i) [ none ↦ panic | some setting ↦ ok setting ]
    else ok none

module _ {S : Type 0}
    (on_column_decryption : ℕ → Bytes → BoundValueFormat → Option S → Outcome WireError Bytes) where
  -- one turn of the loop of handleQueryDataPacket
  unfoldable pub decrypt_column :
      Option (List (Option S)) → List ℕ → ℕ → ColumnData → Outcome WireError ColumnData
  unfolding setting_at get_parameter_format_by_index
  decrypt_column settings formats i c = elim c.is_null [
    | true ↦ ok c
    | false ↦ do
      format ← get_parameter_format_by_index i formats
      setting ← setting_at settings i
      new ← on_column_decryption i c.content format setting
      ok (set_data new c)
  ]

  unfoldable pub decrypt_columns :
      Option (List (Option S)) → List ℕ → ℕ → List ColumnData → Outcome WireError (List ColumnData)
  unfolding decrypt_column
  decrypt_columns settings formats i [] = ok []
  decrypt_columns settings formats i (c ∷ cs) = do
    column ← decrypt_column settings formats i c
    columns ← decrypt_columns settings formats (suc i) cs
    ok (column ∷ columns)

  -- what handleQueryDataPacket does with the columns, if there are some
  unfoldable pub replace_columns :
      Option (List (Option S)) → List ℕ → PacketHandler → Outcome WireError PacketHandler
  unfolding decrypt_columns update_data_from_columns
  replace_columns settings formats p =
      if p.column_count == 0
      then ok p
      else (decrypt_columns settings formats 0 p.columns >>= λ columns.
          ok (update_data_from_columns (record p { columns = columns })))

  -- handleQueryDataPacket, from the settings and the formats of the pending query on; a simple query
  -- has none of its own
  unfoldable pub handle_query_data_packet :
      Option (List (Option S)) → Option (List ℕ) → PacketHandler → Outcome WireError PacketHandler
  unfolding parse_columns replace_columns row_formats
  handle_query_data_packet settings bind p = do
    formats ← row_formats bind
    parsed ← parse_columns formats p
    replace_columns settings formats parsed
