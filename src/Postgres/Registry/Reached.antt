-- ===== src/Postgres/Registry/Reached.antt =====
-- Whatever calls a connection makes, the cursors and statements of its registry stay linked.
use acra.Base.{ℕ, List, [], ◌∷◌, Bytes, inl, inr}
use acra.Base.Dict.{lookup}
use acra.Base.Outcome.{ok, err, panic, Outcome-cases}
use acra.Postgres.Registry.{
  PreparedStatement, Portal, Registry, new_registry, delete_statement, add_statement, add_cursor,
  delete_cursor,
}
use acra.Postgres.Registry.Linked.{IsLinked, delete_statement-IsLinked, add_statement-IsLinked}
use acra.Postgres.Registry.Cursors.{add_cursor-IsLinked, delete_cursor-IsLinked}

-- The calls of the registry, with the object that is added or the name of the one that is deleted.
pub data Call : Type 0 where
  adds_statement adds_cursor : ℕ → Call
  deletes_statement deletes_cursor : Bytes → Call

-- A cursor that is refused leaves the registry as it is.
unfoldable pub call : Call → Registry → Registry
unfolding add_statement delete_statement add_cursor delete_cursor
call (adds_statement s) r = add_statement s r
call (deletes_statement name) r = delete_statement name r
call (adds_cursor c) r = elim (add_cursor c r) [ ok r' ↦ r' | err e ↦ r | panic ↦ r ]
call (deletes_cursor name) r = delete_cursor name r

unfoldable pub run_calls : List Call → Registry → Registry
unfolding call
run_calls [] r = r
run_calls (c ∷ cs) r = run_calls cs (call c r)

call-IsLinked : (c : Call) (r : Registry) → IsLinked r → IsLinked (call c r)
unfolding call
call-IsLinked (adds_statement s) r h = add_statement-IsLinked s r h
call-IsLinked (deletes_statement name) r h = delete_statement-IsLinked name r h
call-IsLinked (adds_cursor c) r h = elim (Outcome-cases (add_cursor c r)) [
  | inl (r', added) ↦ rw (added, call) (add_cursor-IsLinked c r h added)
  | inr (inl (e, refused)) ↦ rw (refused, call) h
  | inr (inr crashed) ↦ rw (crashed, call) h
]
call-IsLinked (deletes_cursor name) r h = delete_cursor-IsLinked name r h

run-IsLinked : (cs : List Call) (r : Registry) → IsLinked r → IsLinked (run_calls cs r)
unfolding run_calls
run-IsLinked [] r h = h
run-IsLinked (c ∷ cs) r h = run-IsLinked cs (call c r) (call-IsLinked c r h)

-- Whatever calls a connection makes, with whatever statements and portals, every statement of the
-- registry stands under its own name, and every cursor belongs to a statement of the registry, which
-- lists that cursor under its name.
pub run_calls-IsLinked :
    (cs : List Call) (statement_at : ℕ → PreparedStatement) (portal_at : ℕ → Portal)
    → IsLinked (run_calls cs (new_registry statement_at portal_at))
unfolding lookup
run_calls-IsLinked cs statement_at portal_at =
    run-IsLinked cs (new_registry statement_at portal_at)
      (record { named = λ name s h. cc; linked = λ name c h. cc })
