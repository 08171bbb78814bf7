-- ===== src/Postgres/Rows/Replaced.antt =====
-- A row whose columns were decrypted is read again as what they were decrypted to.
use acra.Base.{
  ℕ, suc, ◌+◌, ◌*◌, ◌<◌, ◌≡◌, ◌≢◌, refl, sym, ap, ◌∙◌, Bool, true, false, Option, List, [], ◌∷◌,
  ◌++◌, map, Bytes, ◌==◌, Bool-cases, inl, inr, arith, length, take, drop, ne→==, le→ltb, ltb,
}
use acra.Base.Words.{IsBytes}
use acra.Base.Outcome.{Outcome, ok, >>=-eq_ok, ok_injective}
use acra.Wire.{WireError, be_bytes, be_value, be_value-be_bytes_16, be_value-be_bytes_32}
use acra.Postgres.Packet.{PacketHandler, ColumnData}
use acra.Postgres.Rows.{
  BoundValueFormat, null_length, read_columns, parse_columns, any_changed, column_bytes,
  column_lengths, update_data_from_columns, get_parameter_format_by_index, decrypt_column,
  decrypt_columns, setting_at, replace_columns,
}
use acra.Postgres.Rows.Columns.{
  IsColumn, AllColumns, unmarked, column, set_data-IsColumn, read_columns-AllColumns,
  length-column_bytes, read_columns-again,
}

be_value_bound : (b : Bytes) → IsBytes b → be_value (take 2 b) < 0x10000
be_value_bound [] h = omega arith
be_value_bound (x ∷ []) h = omega arith
be_value_bound (x ∷ y ∷ b) h = omega arith

-- what a row that was parsed has
parse_columns-Parsed :
    (formats : List ℕ) (p : PacketHandler) {parsed : PacketHandler}
    → IsBytes p.description_buf
    → parse_columns formats p ≡ ok parsed
    → parsed.column_count ≢ 0
    → (stream : Bytes) × (read_columns parsed.column_count 0 formats stream ≡ ok parsed.columns)
      × (parsed.column_count < 0x10000)
unfolding parse_columns
parse_columns-Parsed formats p small h some_columns =
    elim (Bool-cases (ltb (length p.description_buf) 2)) [
      | inl cut ↦ let e = rw cut at h in cc
      | inr enough ↦ elim (Bool-cases (be_value (take 2 p.description_buf) == 0)) [
        | inl none_left ↦
            let e = ok_injective (rw (enough, none_left) at h) in
            absurd (some_columns (sym (ap (λ (q : PacketHandler). q.column_count) e)))
        | inr counted ↦
            let (cs, read, made) =
              >>=-eq_ok
                (read_columns (be_value (take 2 p.description_buf)) 0 formats
                  (drop 2 p.description_buf))
                _ (rw (enough, counted) at h) in
            rw (sym (ok_injective made))
              (drop 2 p.description_buf, read, be_value_bound p.description_buf small)
      ]
    ]

-- a row that is written with its columns in order is parsed
parse_columns-written :
    (formats : List ℕ) (q : PacketHandler) (n : ℕ) (ds es : List ColumnData)
    → n < 0x10000
    → n ≢ 0
    → q.description_buf ≡ be_bytes 2 n ++ column_bytes ds
    → read_columns n 0 formats (column_bytes ds) ≡ ok es
    → parse_columns formats q ≡ ok (record q { column_count = n; columns = es })
unfolding parse_columns
parse_columns-written formats q n ds es few some_columns buffer read =
    let count : be_value (take 2 q.description_buf) ≡ n =
      ap (λ (b : Bytes). be_value (take 2 b)) buffer ∙ omega (arith, be_value-be_bytes_16 n) in
    let enough : ltb (length q.description_buf) 2 ≡ false =
      le→ltb (length q.description_buf) 2 (omega (arith, ap length buffer)) in
    let rest : drop 2 q.description_buf ≡ column_bytes ds = ap (λ (b : Bytes). drop 2 b) buffer in
    rw (enough, count, ne→== n 0 some_columns, rest, read) refl

-- every column fits the length that is written in front of it
abbrev pub AllShort : List ColumnData → Type 0
AllShort [] = Unit
AllShort (c ∷ cs) = (length c.content < null_length) × AllShort cs

module _ {S : Type 0}
    (on_column_decryption : ℕ → Bytes → BoundValueFormat → Option S → Outcome WireError Bytes)
    (settings : Option (List (Option S))) (formats : List ℕ) where
  decrypt_column-IsColumn :
      (i : ℕ) (length_buf content : Bytes) (changed is_null : Bool) {d : ColumnData}
      → IsColumn (column length_buf content changed is_null)
      → decrypt_column on_column_decryption settings formats i
          (column length_buf content changed is_null)
        ≡ ok d
      → length d.content < null_length
      → IsColumn d
  unfolding decrypt_column
  decrypt_column-IsColumn i length_buf content changed true h e short = rw (sym (ok_injective e)) h
  decrypt_column-IsColumn i length_buf content changed false h e short =
      let (format, known, e1) = >>=-eq_ok (get_parameter_format_by_index i formats) _ e in
      let (setting, found, e2) = >>=-eq_ok (setting_at settings i) _ e1 in
      let (new, opened, e3) = >>=-eq_ok (on_column_decryption i content format setting) _ e2 in
      let same = ok_injective e3 in
      rw (sym same) (set_data-IsColumn new length_buf content changed (rw (sym same) at short))

  decrypt_columns-AllColumns :
      (i : ℕ) (cs : List ColumnData) {ds : List ColumnData}
      → AllColumns cs
      → decrypt_columns on_column_decryption settings formats i cs ≡ ok ds
      → AllShort ds
      → AllColumns ds × (length ds ≡ length cs)
  unfolding decrypt_columns
  decrypt_columns-AllColumns i [] hs h short = rw (sym (ok_injective h)) (tt, refl)
  decrypt_columns-AllColumns i (c ∷ cs) hs h short =
      let (d, first, h1) =
        >>=-eq_ok (decrypt_column on_column_decryption settings formats i c) _ h in
      let (ds, others, made) =
        >>=-eq_ok (decrypt_columns on_column_decryption settings formats (suc i) cs) _ h1 in
      let same = ok_injective made in
      let all_short = rw (sym same) at short in
      let ih = decrypt_columns-AllColumns (suc i) cs hs.1 others all_short.1 in
      rw (sym same) (
        (
          decrypt_column-IsColumn i c.length_buf c.content c.changed c.is_null hs.0 first
              all_short.0,
          ih.0,
        ),
        ap suc ih.1,
      )

  -- A row whose columns were decrypted goes on with the right length, and is read again, with the
  -- formats of the query, as what its columns were decrypted to, the nulls as they were. Some column
  -- is no null, what the columns were decrypted to fits their lengths and that of the packet, and
  -- every element of the row is a byte.
  pub replace_columns-parse :
      (p parsed : PacketHandler) (ds : List ColumnData)
      → IsBytes p.description_buf
      → parse_columns formats p ≡ ok parsed
      → parsed.column_count ≢ 0
      → decrypt_columns on_column_decryption settings formats 0 parsed.columns ≡ ok ds
      → any_changed ds ≡ true
      → AllShort ds
      → length (column_bytes ds) + 6 < 0x100000000
      → (p' : PacketHandler) × (replace_columns on_column_decryption settings formats parsed
          ≡ ok p')
        × (be_value p'.description_length_buf ≡ length p'.description_buf + 4)
        × (parse_columns formats p' ≡ ok (record p' { columns = map unmarked ds }))
  unfolding replace_columns update_data_from_columns
  replace_columns-parse p parsed ds small read some_columns opened changed short fits =
      let (stream, columns_read, few) = parse_columns-Parsed formats p small read some_columns in
      let before = read_columns-AllColumns parsed.column_count 0 formats stream columns_read in
      let after = decrypt_columns-AllColumns 0 parsed.columns before.0 opened short in
      let count : length ds ≡ parsed.column_count = after.1 ∙ before.1 in
      let written = update_data_from_columns (record parsed { columns = ds }) in
      (
        written,
        rw (ne→== parsed.column_count 0 some_columns, opened) refl,
        rw changed (
            be_value-be_bytes_32 (parsed.column_count * 4 + 2 + column_lengths ds + 4)
            ∙ omega (arith, length-column_bytes ds after.0, count)),
        rw changed (
            parse_columns-written formats _ parsed.column_count ds (map unmarked ds) few
              some_columns refl
              (read_columns-again parsed.column_count 0 formats stream ds columns_read count
                after.0)),
      )
