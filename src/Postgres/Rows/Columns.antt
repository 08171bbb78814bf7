-- ===== src/Postgres/Rows/Columns.antt =====
-- What a column of a row is: it is written as it is read.
use acra.Base.{
  ℕ, zero, suc, ◌+◌, ◌*◌, ◌<◌, ◌≡◌, ◌≢◌, refl, sym, ap, ◌∙◌, Bool, true, false, List, [], ◌∷◌, ◌++◌,
  map, Bytes, ◌==◌, if◌then◌else◌, Bool-cases, inl, inr, arith, length, ==_iff, ne→==,
  length-append, length-take,
}
use acra.Base.Outcome.{ok, >>=-eq_ok, ok_pair, ok_injective}
use acra.Wire.{read_full, read_full-eq_ok, read_full-append, be_value, be_value-be_bytes_32}
use acra.Postgres.Packet.{ColumnData}
use acra.Postgres.Rows.{
  column_length, null_length, read_content, read_columns, set_data, column_bytes, column_lengths,
  get_parameter_format_by_index,
}

-- The length of a column says what it holds.
abbrev pub IsColumn : ColumnData → Type 0
IsColumn c =
    (length c.length_buf ≡ 4)
    × (if c.is_null
        then (c.content ≡ []) × (be_value c.length_buf ≡ null_length)
        else (be_value c.length_buf ≡ length c.content) × (length c.content ≢ null_length))

abbrev pub AllColumns : List ColumnData → Type 0
AllColumns [] = Unit
AllColumns (c ∷ cs) = IsColumn c × AllColumns cs

-- the column as `parseColumns` gives it
abbrev pub unmarked : ColumnData → ColumnData
unmarked c = record c { changed = false }

abbrev pub column : Bytes → Bytes → Bool → Bool → ColumnData
column length_buf content changed is_null = record {
  length_buf = length_buf;
  content = content;
  changed = changed;
  is_null = is_null;
}

read_content-again :
    (length_buf content rest : Bytes) (changed is_null : Bool)
    → IsColumn (column length_buf content changed is_null)
    → read_content length_buf (content ++ rest) ≡ ok (column length_buf content false is_null, rest)
unfolding read_content
read_content-again length_buf content rest changed true (four, (empty, null_value)) =
    rw (null_value, empty) refl
read_content-again length_buf content rest changed false (four, (sized, present)) =
    rw
      (
        sized,
        ne→== (length content) null_length present,
        read_full-append (length content) content rest refl,
      )
      refl

pub set_data-IsColumn :
    (new length_buf content : Bytes) (changed : Bool)
    → length new < null_length
    → IsColumn (set_data new (column length_buf content changed false))
set_data-IsColumn new length_buf content changed short =
    (refl, (omega (arith, be_value-be_bytes_32 (length new)), λ e. absurd (omega (arith, e))))

read_content-IsColumn :
    (length_buf stream : Bytes) {c : ColumnData} {rest : Bytes}
    → length length_buf ≡ 4
    → read_content length_buf stream ≡ ok (c, rest)
    → IsColumn c
unfolding read_content
read_content-IsColumn length_buf stream four h =
    elim (Bool-cases (be_value length_buf == null_length)) [
      | inl is_null ↦
          let parts = ok_pair (rw is_null at h) in
          rw (sym parts.0) (four, (refl, (==_iff (be_value length_buf) null_length).0 is_null))
      | inr present ↦
          let ((content, rest'), read, made) =
            >>=-eq_ok (read_full (be_value length_buf) stream) _ (rw present at h) in
          let parts = ok_pair made in
          let (enough, front, behind) = read_full-eq_ok (be_value length_buf) stream read in
          let sized = ap length front ∙ length-take (be_value length_buf) stream enough in
          rw (sym parts.0) (four, (sym sized, λ e. ground (arith, e, sized)))
    ]

column_length-content :
    (length_buf content : Bytes) (changed is_null : Bool)
    → IsColumn (column length_buf content changed is_null)
    → column_length (column length_buf content changed is_null) ≡ length content
column_length-content length_buf content changed true h = sym (ap length h.1.0)
column_length-content length_buf content changed false h = h.1.0

pub length-column_bytes :
    (cs : List ColumnData)
    → AllColumns cs
    → length (column_bytes cs) ≡ length cs * 4 + column_lengths cs
length-column_bytes [] h = refl
length-column_bytes (c ∷ cs) (h, hs) = omega (
  arith,
  h.0,
  column_length-content c.length_buf c.content c.changed c.is_null h,
  length-append c.length_buf (c.content ++ column_bytes cs),
  length-append c.content (column_bytes cs),
  length-column_bytes cs hs,
)

pub read_columns-AllColumns :
    (n i : ℕ) (formats : List ℕ) (stream : Bytes) {cs : List ColumnData}
    → read_columns n i formats stream ≡ ok cs
    → AllColumns cs × (length cs ≡ n)
unfolding read_columns
read_columns-AllColumns zero i formats stream h = rw (sym (ok_injective h)) (tt, refl)
read_columns-AllColumns (suc n) i formats stream h =
    let ((length_buf, behind), first, h1) = >>=-eq_ok (read_full 4 stream) _ h in
    let (format, known, h2) = >>=-eq_ok (get_parameter_format_by_index i formats) _ h1 in
    let ((c, rest), read, h3) = >>=-eq_ok (read_content length_buf behind) _ h2 in
    let (cs, others, made) = >>=-eq_ok (read_columns n (suc i) formats rest) _ h3 in
    let ih = read_columns-AllColumns n (suc i) formats rest others in
    let (enough, front, _) = read_full-eq_ok 4 stream first in
    let four = ap length front ∙ length-take 4 stream enough in
    rw (sym (ok_injective made))
      ((read_content-IsColumn length_buf behind four read, ih.0), ap suc ih.1)

-- Where a row was read with some formats, columns that are as many are read with them, too.
pub read_columns-again :
    (n i : ℕ) (formats : List ℕ) (stream : Bytes) {before : List ColumnData} (cs : List ColumnData)
    → read_columns n i formats stream ≡ ok before
    → length cs ≡ n
    → AllColumns cs
    → read_columns n i formats (column_bytes cs) ≡ ok (map unmarked cs)
unfolding read_columns
read_columns-again zero i formats stream [] h e hs = refl
read_columns-again zero i formats stream (c ∷ cs) h e hs = absurd (omega (arith, e))
read_columns-again (suc n) i formats stream [] h e hs = absurd (omega (arith, e))
read_columns-again (suc n) i formats stream (c ∷ cs) h e hs =
    let ((length_buf, behind), first, h1) = >>=-eq_ok (read_full 4 stream) _ h in
    let (format, known, h2) = >>=-eq_ok (get_parameter_format_by_index i formats) _ h1 in
    let ((c', rest), read, h3) = >>=-eq_ok (read_content length_buf behind) _ h2 in
    let (cs', others, made) = >>=-eq_ok (read_columns n (suc i) formats rest) _ h3 in
    rw
      (
        read_full-append 4 c.length_buf (c.content ++ column_bytes cs) hs.0.0,
        known,
        read_content-again c.length_buf c.content (column_bytes cs) c.changed c.is_null hs.0,
        read_columns-again n (suc i) formats rest cs others (omega (arith, e)) hs.1,
      )
      refl
