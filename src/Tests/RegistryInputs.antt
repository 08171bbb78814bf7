-- ===== src/Tests/RegistryInputs.antt =====
-- Prepared statements and portals at concrete inputs.
use acra.Base.{◌≡◌, refl, sym, some, List, [], ◌∷◌, ℕ, text, arith, bytes_eq}
use acra.Base.Dict.{lookup}
use acra.Base.Outcome.{ok, err}
use acra.Postgres.Messages.{BindPacket, ExecutePacket}
use acra.Postgres.Registry.{
  PreparedStatement, Portal, Registry, cursor_not_found, new_prepared_statement, new_registry,
  cursor_by_name, delete_statement, add_cursor, enter_cursor, zeroize_overridden,
  register_prepared_statement, register_cursor, executed_query,
}
use acra.Postgres.Registry.Linked.{IsLinked, some_injective, some-ne-none}
use acra.Postgres.Registry.Reached.{
  Call, adds_statement, adds_cursor, deletes_statement, deletes_cursor, run_calls,
  run_calls-IsLinked,
}
use acra.Postgres.Registry.Lost.{add_cursor-lost}
use acra.Postgres.Registry.Executed.{register-executed}

-- a statement at every address, named by it
abbrev statements : ℕ → PreparedStatement
statements s = new_prepared_statement (s ∷ []) (text "query")

abbrev unnamed : ℕ → BindPacket
unnamed s = record {
  portal = [];
  statement = s ∷ [];
  param_formats = [];
  param_values = some (1 ∷ []) ∷ [];
  result_formats = [];
}

-- the unnamed portal of every statement
abbrev portals : ℕ → Portal
portals c = record { bind = unnamed c; statement = c }

abbrev calls : List Call
calls =
    adds_statement 1
    ∷ adds_statement 2
    ∷ adds_cursor 1
    ∷ adds_cursor 2
    ∷ adds_cursor 3
    ∷ deletes_statement (1 ∷ [])
    ∷ deletes_cursor []
    ∷ []

run_calls-IsLinked_example : IsLinked (run_calls calls (new_registry statements portals))
run_calls-IsLinked_example = run_calls-IsLinked calls statements portals

-- two statements
abbrev two_statements : Registry
two_statements = record (new_registry statements portals) {
  statements = (1 ∷ [], 1) ∷ (2 ∷ [], 2) ∷ [];
}

-- the unnamed portal is bound to the first, and then to the second
abbrev bound_once : Registry
bound_once = enter_cursor [] 1 1 (zeroize_overridden [] two_statements)

abbrev bound_twice : Registry
bound_twice = enter_cursor [] 2 2 (zeroize_overridden [] bound_once)

add_cursor-lost_example :
    (cursor_by_name [] bound_twice ≡ ok 2)
    × (cursor_by_name [] (delete_statement (1 ∷ []) bound_twice) ≡ err cursor_not_found)
unfolding add_cursor bytes_eq
add_cursor-lost_example =
    add_cursor-lost 1 2 two_statements {r1 = bound_once} {r2 = bound_twice} refl refl refl
      (omega arith)

abbrev execute_unnamed : ExecutePacket
execute_unnamed = record { portal = []; max_rows = 0 }

register-executed_example :
    (r' : Registry) × (register_cursor 4
        (unnamed 1)
        (register_prepared_statement 3 (1 ∷ []) (text "select") two_statements)
      ≡ ok r')
    × (executed_query execute_unnamed r' ≡ ok (text "select", unnamed 1))
unfolding lookup bytes_eq
register-executed_example =
    register-executed 3 4 (text "select") (unnamed 1) execute_unnamed two_statements
      (λ h. absurd (omega (arith, some_injective h))) (λ h. some-ne-none (sym h)) refl
