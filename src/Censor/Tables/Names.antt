-- ===== src/Censor/Tables/Names.antt =====
-- The matching of tables agrees with a look at the list of all names.
use acra.Base.{
  ℕ, suc, ◌≤◌, ◌≡◌, refl, sym, ap, ◌∙◌, Bool, true, false, ◌&&◌, ◌||◌, Option, none, some, List, [],
  ◌∷◌, ◌++◌, Bytes, ◌==◌, arith, if◌then◌else◌,
}
use acra.Censor.Tables.{
  StringSet, TableExpr, TableExprs, aliased, join, paren, other_table, nil, cons, contains, count,
  next_match, whole, check_table_expr_match, match_loop, check_table_exprs_match,
}

-- The names of the tables in an expression, in order; `none` stands for a table without one.
unfoldable mutual
  pub tables_of : TableExpr → List (Option Bytes)
  tables_of (aliased name) = some name ∷ []
  tables_of (join left right) = tables_of left ++ tables_of right
  tables_of (paren ts) = tables_of_all ts
  tables_of other_table = none ∷ []

  pub tables_of_all : TableExprs → List (Option Bytes)
  tables_of_all nil = []
  tables_of_all (cons t ts) = tables_of t ++ tables_of_all ts

abbrev pub is_in : StringSet → Option Bytes → Bool
is_in set none = false
is_in set (some name) = contains name set

abbrev pub any_in : StringSet → List (Option Bytes) → Bool
any_in set [] = false
any_in set (x ∷ xs) = is_in set x || any_in set xs

abbrev pub all_in : StringSet → List (Option Bytes) → Bool
all_in set [] = true
all_in set (x ∷ xs) = is_in set x && all_in set xs

-- Parentheses hold at least one table.
unfoldable mutual
  pub NonEmpty : TableExpr → Type 0
  NonEmpty (aliased name) = Unit
  NonEmpty (join left right) = NonEmpty left × NonEmpty right
  NonEmpty (paren ts) = HasTable ts
  NonEmpty other_table = Unit

  pub HasTable : TableExprs → Type 0
  HasTable nil = ⊥
  HasTable (cons t ts) = NonEmpty t × EachNonEmpty ts

  pub EachNonEmpty : TableExprs → Type 0
  EachNonEmpty nil = Unit
  EachNonEmpty (cons t ts) = NonEmpty t × EachNonEmpty ts

HasTable-EachNonEmpty : (ts : TableExprs) → HasTable ts → EachNonEmpty ts
unfolding NonEmpty
HasTable-EachNonEmpty nil h = absurd h
HasTable-EachNonEmpty (cons t ts) h = h

any_in-append :
    (set : StringSet) (xs ys : List (Option Bytes))
    → any_in set (xs ++ ys) ≡ (any_in set xs || any_in set ys)
any_in-append set [] ys = refl
any_in-append set (x ∷ xs) ys = ground (arith, any_in-append set xs ys)

all_in-append :
    (set : StringSet) (xs ys : List (Option Bytes))
    → all_in set (xs ++ ys) ≡ (all_in set xs && all_in set ys)
all_in-append set [] ys = refl
all_in-append set (x ∷ xs) ys = ground (arith, all_in-append set xs ys)

-- a table of a non-empty expression
abbrev Has : List (Option Bytes) → Type 0
Has [] = ⊥
Has (x ∷ xs) = Unit

Has-append : (xs ys : List (Option Bytes)) → Has xs → Has (xs ++ ys)
Has-append [] ys h = absurd h
Has-append (x ∷ xs) ys h = tt

mutual
  unfolding tables_of NonEmpty

  tables_of-Has : (t : TableExpr) → NonEmpty t → Has (tables_of t)
  tables_of-Has (aliased name) h = tt
  tables_of-Has (join left right) (h, _) =
      Has-append (tables_of left) (tables_of right) (tables_of-Has left h)
  tables_of-Has (paren ts) h = tables_of_all-Has ts h
  tables_of-Has other_table h = tt

  tables_of_all-Has : (ts : TableExprs) → HasTable ts → Has (tables_of_all ts)
  tables_of_all-Has nil h = absurd h
  tables_of_all-Has (cons t ts) (h, _) =
      Has-append (tables_of t) (tables_of_all ts) (tables_of-Has t h)

all_in-any_in :
    (set : StringSet) (xs : List (Option Bytes))
    → Has xs
    → all_in set xs ≡ true
    → any_in set xs ≡ true
all_in-any_in set [] h k = absurd h
all_in-any_in set (x ∷ xs) h k = ground arith

-- one turn of the loop
next_match-first :
    (one all one_later all_later : Bool) (n c : ℕ)
    → n ≤ c
    → (all ≡ true → one ≡ true)
    → (n == c) ≡ all_later
    → ((next_match (one, all) (one_later, n)).0 ≡ (one || one_later))
      × (((next_match (one, all) (one_later, n)).1 == suc c) ≡ (all && all_later))
      × ((next_match (one, all) (one_later, n)).1 ≤ suc c)
next_match-first true true one_later all_later n c h k e = (refl, ground arith, omega arith)
next_match-first true false one_later all_later n c h k e = (refl, ground arith, omega arith)
next_match-first false true one_later all_later n c h k e = absurd (let f = k refl in cc)
next_match-first false false one_later all_later n c h k e = (refl, ground arith, omega arith)

whole-is :
    (n : ℕ) (r : Bool × ℕ) (one all : Bool) → r.0 ≡ one → (r.1 == n) ≡ all → whole n r ≡ (one, all)
whole-is n (o, c) one all p q = rw (p, q) refl

aliased_match :
    (set : StringSet) (name : Bytes)
    → ◌≡◌ {A = Bool × Bool}
        (if contains name set then (true, true) else (false, false))
        (contains name set || false, contains name set && true)
aliased_match set name = ground arith

mutual
  unfolding check_table_expr_match tables_of NonEmpty count

  expr-names :
      (t : TableExpr) (set : StringSet)
      → NonEmpty t
      → check_table_expr_match t set ≡ (any_in set (tables_of t), all_in set (tables_of t))
  expr-names (aliased name) set h = aliased_match set name
  expr-names (join left right) set (h, k) =
      rw (expr-names left set h, expr-names right set k)
        (rw (any_in-append set (tables_of left) (tables_of right))
          (rw (all_in-append set (tables_of left) (tables_of right)) refl))
  expr-names (paren ts) set h =
      let (p, q, _) = loop-names ts set (HasTable-EachNonEmpty ts h) in
      whole-is (count ts) (match_loop ts set) _ _ p q
  expr-names other_table set h = refl

  loop-names :
      (ts : TableExprs) (set : StringSet)
      → EachNonEmpty ts
      → ((match_loop ts set).0 ≡ any_in set (tables_of_all ts))
        × (((match_loop ts set).1 == count ts) ≡ all_in set (tables_of_all ts))
        × ((match_loop ts set).1 ≤ count ts)
  loop-names nil set h = (refl, refl, omega arith)
  loop-names (cons t ts) set (h, k) =
      let (p, q, r) = loop-names ts set k in
      let (a, b, c) =
        next_match-first (any_in set (tables_of t)) (all_in set (tables_of t)) (match_loop ts set).0
          (all_in set (tables_of_all ts)) (match_loop ts set).1 (count ts) r
          (all_in-any_in set (tables_of t) (tables_of-Has t h)) q in
      rw (expr-names t set h) (
        a
            ∙ ap (λ (o : Bool). any_in set (tables_of t) || o) p
            ∙ sym (any_in-append set (tables_of t) (tables_of_all ts)),
        b ∙ sym (all_in-append set (tables_of t) (tables_of_all ts)),
        c,
      )

-- On a list of tables with no empty parentheses in it, `checkTableExprsMatch` answers whether at
-- least one of the names in it is in the set, and whether all of them are, however joins and
-- parentheses nest, although its loop stops at the first table that matches in part.
pub check_table_exprs_match-names :
    (ts : TableExprs) (set : StringSet)
    → EachNonEmpty ts
    → check_table_exprs_match ts set
      ≡ (any_in set (tables_of_all ts), all_in set (tables_of_all ts))
unfolding check_table_exprs_match
check_table_exprs_match-names ts set h =
    let (p, q, _) = loop-names ts set h in whole-is (count ts) (match_loop ts set) _ _ p q
