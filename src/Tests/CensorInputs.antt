-- ===== src/Tests/CensorInputs.antt =====
-- Inputs for the theorems about AcraCensor: acra-censor.
use acra.Base.{◌≡◌, refl, ◌↔◌, false, Option, none, some, [], ◌∷◌, Bytes, bytes_eq, text}
use acra.Base.Outcome.{err}
use acra.Censor.Tables.{
  StringSet, TableExprs, aliased, join, paren, other_table, nil, cons, insert_into,
  check_table_exprs_match,
}
use acra.Censor.Tables.Names.{
  EachNonEmpty, any_in, all_in, tables_of_all, check_table_exprs_match-names,
}
use acra.Censor.Handlers.{Parser, Parsed, deny_by_table, deny, allow_all, query_capture}
use acra.Censor.Chain.{AcraCensor, Query, denied, query_of, handle_query}
use acra.Censor.Chain.Decides.{IsDecided, handle_query-denied}

-- `a JOIN (b, c)` and `d`
abbrev from_tables : TableExprs
from_tables =
    cons (join (aliased (text "a")) (paren (cons (aliased (text "b")) (cons other_table nil))))
      (cons (aliased (text "d")) nil)

abbrev secret_tables : StringSet
secret_tables = text "b" ∷ text "d" ∷ []

check_table_exprs_match-names_example : check_table_exprs_match from_tables secret_tables ≡ (
  any_in secret_tables (tables_of_all from_tables),
  all_in secret_tables (tables_of_all from_tables),
)
unfolding EachNonEmpty
check_table_exprs_match-names_example =
    check_table_exprs_match-names from_tables secret_tables ((tt, (tt, (tt, tt))), (tt, tt))

abbrev parse_word : Bytes → Option (Parsed Bytes)
parse_word [] = none
parse_word (b ∷ bs) = some (record { normalized = b ∷ bs; redacted = text "?"; statement = b ∷ bs })

-- A query is the name of the table into which it inserts.
abbrev words : Parser
words = record {
  Statement = Bytes;
  handle_raw_sql_query = parse_word;
  parse = λ b. some b;
  tables_in = insert_into;
  matches_pattern = bytes_eq;
}

abbrev guarded : AcraCensor words
guarded = record {
  handlers =
      query_capture (record { queue = []; skipped_query_count = 0 })
      ∷ deny (record { queries = []; tables = secret_tables; rule_patterns = [] })
      ∷ allow_all
      ∷ [];
  ignore_parse_error = false;
  unparsed_queries_writer = none;
}

abbrev insert_b : Query words
insert_b = record {
  raw = text "b";
  normalized = text "b";
  redacted = text "?";
  statement = some (text "b");
}

handle_query-denied_example :
    ((handle_query words (text "b") guarded).1 ≡ err deny_by_table)
    ↔ IsDecided words guarded.handlers insert_b (denied deny_by_table)
unfolding query_of
handle_query-denied_example =
    handle_query-denied words (text "b") guarded insert_b deny_by_table refl
