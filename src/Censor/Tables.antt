-- ===== src/Censor/Tables.antt =====
-- Which tables a query reads: CheckTableNamesMatch of acra-censor/common/common.go.
pub mod Names
use acra.Base.{
  ℕ, suc, ◌≡◌, Bool, true, false, ◌&&◌, ◌||◌, List, [], ◌∷◌, Bytes, bytes_eq, ◌==◌, if◌then◌else◌,
}

-- A `map[string]bool` whose values are all true: a set of strings.
abbrev pub StringSet : Type 0
StringSet = List Bytes

unfoldable pub contains : Bytes → StringSet → Bool
contains x [] = false
contains x (y ∷ ys) = bytes_eq y x || contains x ys

-- The parts of the parser's syntax trees that the code looks at: a `TableExpr` with the text of its
-- name, and the two statements with tables.
mutual
  pub data TableExpr : Type 0 where
    aliased : Bytes → TableExpr
    join : TableExpr → TableExpr → TableExpr
    paren : TableExprs → TableExpr
    -- a `TableExpr` of another type
    other_table : TableExpr

  pub data TableExprs : Type 0 where
    nil : TableExprs
    cons : TableExpr → TableExprs → TableExprs

pub data Tables : Type 0 where
  select_from : TableExprs → Tables
  insert_into : Bytes → Tables
  other_statement : Tables

pub count : TableExprs → ℕ
count nil = 0
count (cons t ts) = suc (count ts)

-- The loop of `checkTableExprsMatch` from an element on: whether some table matched and how many
-- elements matched as a whole; it stops where an element matched in part.
abbrev pub next_match : Bool × Bool → Bool × ℕ → Bool × ℕ
next_match (true, true) (one, n) = (true, suc n)
next_match (true, false) later = (true, 0)
next_match (false, _) later = later

abbrev pub either_match : Bool × Bool → Bool × Bool → Bool × Bool
either_match (one_left, all_left) (one_right, all_right) =
    (one_left || one_right, all_left && all_right)

abbrev pub whole : ℕ → Bool × ℕ → Bool × Bool
whole n (one, counter) = (one, counter == n)

-- `checkTableExprMatch` and `checkTableExprsMatch`: whether at least one table is in the set, and
-- whether all are
unfoldable mutual
  unfolding count contains

  pub check_table_expr_match : TableExpr → StringSet → Bool × Bool
  check_table_expr_match (aliased name) set =
      if contains name set then (true, true) else (false, false)
  check_table_expr_match (join left right) set =
      either_match (check_table_expr_match left set) (check_table_expr_match right set)
  check_table_expr_match (paren ts) set = whole (count ts) (match_loop ts set)
  check_table_expr_match other_table set = (false, false)

  pub match_loop : TableExprs → StringSet → Bool × ℕ
  match_loop nil set = (false, 0)
  match_loop (cons t ts) set = next_match (check_table_expr_match t set) (match_loop ts set)

unfoldable pub check_table_exprs_match : TableExprs → StringSet → Bool × Bool
check_table_exprs_match ts set = whole (count ts) (match_loop ts set)

-- `CheckTableNamesMatch`
unfoldable pub check_table_names_match : Tables → StringSet → Bool × Bool
unfolding check_table_exprs_match
check_table_names_match (select_from ts) set = check_table_exprs_match ts set
check_table_names_match (insert_into name) set =
    if contains name set then (true, true) else (false, false)
check_table_names_match other_statement set = (false, false)
