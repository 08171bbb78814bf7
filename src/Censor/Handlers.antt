-- ===== src/Censor/Handlers.antt =====
-- The handlers of AcraCensor: acra-censor/handlers, and the patterns of acra-censor/common/common.go.
use acra.Base.{
  ℕ, zero, suc, ◌+◌, ◌-◌, ◌%◌, ◌^◌, Bool, true, false, not, ◌&&◌, ◌||◌, Option, none, some, List,
  [], ◌∷◌, ◌++◌, Bytes, bytes_eq, if◌then◌else◌, ltb, length, take, text,
}
use acra.Base.Outcome.{Outcome, ok, err, panic, ◌>>=◌}
use acra.Censor.Tables.{StringSet, Tables, contains, check_table_names_match}

pub data CensorError : Type 0 where
  deny_by_query deny_by_table deny_by_pattern deny_all_error : CensorError
  query_syntax_error pattern_syntax_error censor_configuration_error : CensorError
  io_error : ℕ → CensorError

-- The parser of SQL (`HandleRawSQLQuery` and `Parse` in strict mode, where `none` is a syntax
-- error), the tables that a statement names, and the matching of a statement with a pattern.
pub record Parsed (Statement : Type 0) : Type 0 where
  pub normalized : Bytes
  pub redacted : Bytes
  pub statement : Statement

pub record Parser : Type 1 where
  pub Statement : Type 0
  pub handle_raw_sql_query : Bytes → Option (Parsed Statement)
  pub parse : Bytes → Option Statement
  pub tables_in : Statement → Tables
  pub matches_pattern : Statement → Statement → Bool

-- `delete`
unfoldable pub remove : Bytes → StringSet → StringSet
remove x [] = []
remove x (y ∷ ys) = let rest = remove x ys in if bytes_eq y x then rest else y ∷ rest

abbrev pub add_all : List Bytes → StringSet → StringSet
add_all [] set = set
add_all (x ∷ xs) set = add_all xs (x ∷ set)

abbrev pub remove_all : List Bytes → StringSet → StringSet
remove_all [] set = set
remove_all (x ∷ xs) set = remove_all xs (remove x set)

-- `strings.Replace` of all occurrences, with the bytes of one that are still to be passed over
unfoldable pub replace_from : ℕ → Bytes → Bytes → Bytes → Bytes
replace_from skip old new [] = []
replace_from (suc skip) old new (b ∷ bs) = replace_from skip old new bs
replace_from zero old new (b ∷ bs) =
    let found = new ++ replace_from (length old - 1) old new bs in
    let kept = b ∷ replace_from 0 old new bs in
    if bytes_eq (take (length old) (b ∷ bs)) old then found else kept

-- placeholders and what the code parses in their place
abbrev pub patterns : List (Bytes × Bytes)
patterns =
    (text "%%SELECT%%", text "SELECT 253768160274445518137315681")
    ∷ (
      text "%%UNION%%",
      text "SELECT 254775710223443243272234290 UNION SELECT 486264166657867240626457666",
    )
    ∷ (
      text "%%INSERT%%",
      text
          "INSERT INTO table_150624360841713829746677497 (column_454716724) VALUES (value_151516596)",
    )
    ∷ (
      text "%%UPDATE%%",
      text
          "UPDATE table_795749362101944825892661393 SET column_148943040 = 577742781 WHERE row_788570922 = 840343494",
    )
    ∷ (text "%%DELETE%%", text "DELETE FROM table_359557854899217835429634591")
    ∷ (text "%%BEGIN%%", text "BEGIN")
    ∷ (text "%%COMMIT%%", text "COMMIT")
    ∷ (text "%%ROLLBACK%%", text "ROLLBACK")
    ∷ (text "%%WHERE%%", text "where value = where_651453831047102383248696721")
    ∷ (text "%%VALUE%%", text "'value_877452131373673274532373116'")
    ∷ (text "%%SUBQUERY%%", text "SELECT 'subquery_820753242875385807714016705'")
    ∷ (text "%%LIST_OF_VALUES%%", text "'list_of_values_980254824737236160411017007'")
    ∷ (text "%%COLUMN%%", text "column_443112402399486586659464580")
    ∷ []

abbrev pub replace_placeholders : List (Bytes × Bytes) → Bytes → Bytes
replace_placeholders [] value = value
replace_placeholders ((old, new) ∷ ps) value =
    replace_placeholders ps (replace_from 0 old new value)

-- The channel of a `QueryWriter`: it takes 500 queries, and counts those that find it full.
pub record QueryWriter : Type 0 where
  pub queue : List Bytes
  pub skipped_query_count : ℕ

abbrev pub channel_size : ℕ
channel_size = 500

unfoldable pub write_query : Bytes → QueryWriter → QueryWriter
write_query query w =
    if ltb (length w.queue) channel_size
    then record w { queue = w.queue ++ query ∷ [] }
    else record w { skipped_query_count = (w.skipped_query_count + 1) % 2 ^ 64 }

-- what `sqlparser.String` prints for no statement
abbrev nil_text : Bytes
nil_text = text "<nil>"

module _ (parser : Parser) where
  open parser use {Statement, handle_raw_sql_query, parse, tables_in, matches_pattern}

  -- the fields of an `AllowHandler` and of a `DenyHandler`
  pub record Rules : Type 0 where
    pub queries : StringSet
    pub tables : StringSet
    pub rule_patterns : List Statement

  pub data Handler : Type 0 where
    allow deny : Rules → Handler
    allow_all deny_all : Handler
    query_ignore : StringSet → Handler
    query_capture : QueryWriter → Handler

  unfoldable pub check_patterns_matching : List Statement → Statement → Bool
  check_patterns_matching [] query = false
  check_patterns_matching (p ∷ ps) query =
      matches_pattern query p || check_patterns_matching ps query

  abbrev pub is_empty : List Bytes → Bool
  is_empty [] = true
  is_empty _ = false

  -- `CheckQuery` of the `AllowHandler`: whether to go on
  unfoldable pub check_allowed : Rules → Bytes → Statement → Bool
  check_allowed r normalized query = not (
      (not (is_empty r.queries) && contains normalized r.queries)
      || (not (is_empty r.tables) && (check_table_names_match (tables_in query) r.tables).1)
      || check_patterns_matching r.rule_patterns query)

  -- `CheckQuery` of the `DenyHandler`: the error, if any
  unfoldable pub check_denied : Rules → Bytes → Statement → Option CensorError
  check_denied r normalized query =
      if not (is_empty r.queries) && contains normalized r.queries
      then some deny_by_query
      else if not (is_empty r.tables) && (check_table_names_match (tables_in query) r.tables).0
      then some deny_by_table
      else if check_patterns_matching r.rule_patterns query
      then some deny_by_pattern
      else none

  -- `CheckQuery` of the `QueryIgnoreHandler`, which the censor calls without a statement
  unfoldable pub check_ignored : StringSet → Bytes → Bool
  check_ignored ignored raw = not (contains nil_text ignored || contains raw ignored)

  -- `AddQueries` and `RemoveQueries` of both; an error leaves what was done before it
  unfoldable pub add_queries : List Bytes → Rules → Rules × Outcome CensorError (Unit {0})
  add_queries [] r = (r, ok tt)
  add_queries (q ∷ qs) r = elim (handle_raw_sql_query q) [
    | none ↦ (r, err query_syntax_error)
    | some p ↦ add_queries qs (record r { queries = p.normalized ∷ r.queries })
  ]

  unfoldable pub remove_queries : List Bytes → Rules → Rules × Outcome CensorError (Unit {0})
  remove_queries [] r = (r, ok tt)
  remove_queries (q ∷ qs) r = elim (handle_raw_sql_query q) [
    | none ↦ (r, err query_syntax_error)
    | some p ↦ remove_queries qs (record r { queries = remove p.normalized r.queries })
  ]

  abbrev pub add_tables : List Bytes → Rules → Rules
  add_tables names r = record r { tables = add_all names r.tables }

  abbrev pub remove_tables : List Bytes → Rules → Rules
  remove_tables names r = record r { tables = remove_all names r.tables }

  -- `ParsePatterns`
  unfoldable pub parse_patterns : List Bytes → Outcome CensorError (List Statement)
  parse_patterns [] = ok []
  parse_patterns (p ∷ ps) = elim (parse (replace_placeholders patterns p)) [
    | none ↦ err pattern_syntax_error
    | some statement ↦ parse_patterns ps >>= λ rest. ok (statement ∷ rest)
  ]

  -- `AddPatterns`: the new patterns take the place of the old ones
  unfoldable pub add_patterns : List Bytes → Rules → Rules × Outcome CensorError (Unit {0})
  add_patterns ps r = elim (parse_patterns ps) [
    | ok statements ↦ (record r { rule_patterns = statements }, ok tt)
    | err e ↦ (r, err e)
    | panic ↦ (r, panic)
  ]

  -- `Reset`, and with it `Release`
  abbrev pub reset : Rules → Rules
  reset r = record { queries = []; tables = []; rule_patterns = [] }

  -- `AddQueries` and `RemoveQueries` of the `QueryIgnoreHandler`
  unfoldable pub add_ignored : List Bytes → StringSet → StringSet
  add_ignored [] set = set
  add_ignored (q ∷ qs) set = elim (handle_raw_sql_query q) [
    | none ↦ add_ignored qs (q ∷ set)
    | some p ↦ add_ignored qs (p.normalized ∷ q ∷ set)
  ]

  unfoldable pub remove_ignored : List Bytes → StringSet → StringSet
  remove_ignored [] set = set
  remove_ignored (q ∷ qs) set = elim (handle_raw_sql_query q) [
    | none ↦ remove_ignored qs (remove q set)
    | some p ↦ remove_ignored qs (remove p.normalized (remove q set))
  ]
