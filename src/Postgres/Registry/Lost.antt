-- ===== src/Postgres/Registry/Lost.antt =====
-- What becomes of the statements and cursors that a connection replaces.
use acra.Base.{
  ℕ, ◌≡◌, ◌≢◌, refl, sym, ap, ◌∙◌, none, some, [], Bytes, ◌==◌, inl, inr, Bool-cases, Option-cases,
  ==_iff, bytes_eq_refl,
}
use acra.Base.Dict.{lookup, insert, lookup-insert}
use acra.Base.Outcome.{ok, err, ok_injective}
use acra.Postgres.Registry.{
  PreparedStatement, Portal, Registry, cursor_not_found, cursor_by_name, delete_cursors,
  drop_statement, delete_statement, add_statement, zeroize_overridden, enter_cursor, add_cursor,
}
use acra.Postgres.Registry.Linked.{
  changed_at-kept, changed_at-here, other_object, delete_cursors-IsLeft, delete_statement-known,
  some-ne-none,
}
use acra.Postgres.Registry.Cursors.{zeroize_overridden-cases}

-- what is known of a statement that is deleted
delete_statement-erased :
    (name : Bytes) (old : ℕ) (r : Registry)
    → lookup name r.statements ≡ some old
    → ((delete_statement name r).statement_at old).text ≡ []
unfolding drop_statement
delete_statement-erased name old r known = rw (delete_statement-known name r known) (
    ap (λ (x : PreparedStatement). x.text)
      (changed_at-here old _ (delete_cursors (r.statement_at old).cursors r).statement_at))

-- Where a statement is parsed under the name of an earlier one, the text of the earlier one is
-- emptied. A query that was executed and waits for its rows has this object, not a copy.
pub add_statement-erased :
    (old new : ℕ) (r : Registry)
    → lookup (r.statement_at new).name r.statements ≡ some old
    → ((add_statement new r).statement_at old).text ≡ []
unfolding add_statement
add_statement-erased old new r known = delete_statement-erased (r.statement_at new).name old r known

-- what a cursor that is entered changes
record IsEntered (c : ℕ) (r r' : Registry) : Type 0 where
  found :
      lookup (r.statement_at (r.portal_at c).statement).name r.statements
      ≡ some (r.portal_at c).statement
  same_statements : r'.statements ≡ r.statements
  objects :
      r'.statement_at
      ≡ (enter_cursor (r.portal_at c).bind.portal c (r.portal_at c).statement r).statement_at
  cursors : r'.cursors ≡ insert (r.portal_at c).bind.portal c r.cursors
  same_owners : (d : ℕ) → (r'.portal_at d).statement ≡ (r.portal_at d).statement
  same_names : (d : ℕ) → (r'.portal_at d).bind.portal ≡ (r.portal_at d).bind.portal

enter_overridden-IsEntered :
    (c : ℕ) (r : Registry)
    → lookup (r.statement_at (r.portal_at c).statement).name r.statements
      ≡ some (r.portal_at c).statement
    → IsEntered c r (
        enter_cursor
          (r.portal_at c).bind.portal
          c
          (r.portal_at c).statement
          (zeroize_overridden (r.portal_at c).bind.portal r))
unfolding enter_cursor
enter_overridden-IsEntered c r found =
    let name = (r.portal_at c).bind.portal in
    elim (zeroize_overridden-cases name r) [
      | inl kept ↦ rw kept (record {
        found = found;
        same_statements = refl;
        objects = refl;
        cursors = refl;
        same_owners = λ d. refl;
        same_names = λ d. refl;
      })
      | inr (old, zeroized) ↦ rw zeroized (record {
        found = found;
        same_statements = refl;
        objects = refl;
        cursors = refl;
        same_owners = λ d. changed_at-kept (λ (x : Portal). x.statement) old _ r.portal_at d refl;
        same_names = λ d. changed_at-kept (λ (x : Portal). x.bind.portal) old _ r.portal_at d refl;
      })
    ]

add_cursor-IsEntered :
    (c : ℕ) (r : Registry) {r' : Registry} → add_cursor c r ≡ ok r' → IsEntered c r r'
unfolding add_cursor
add_cursor-IsEntered c r e =
    let s = (r.portal_at c).statement in
    elim (Option-cases (lookup (r.statement_at s).name r.statements)) [
      | inr unknown ↦ let e' = rw (unknown, add_cursor) at e in cc
      | inl (expected, known) ↦ elim (Bool-cases (expected == s)) [
        | inr other ↦ let e' = rw (known, other, add_cursor) at e in cc
        | inl same ↦
            rw (sym (ok_injective (rw (known, same, add_cursor) at e)))
              (enter_overridden-IsEntered c r (known ∙ ap some ((==_iff expected s).0 same)))
      ]
    ]

cursor_by_name-some :
    (name : Bytes) (r : Registry) {c : ℕ}
    → lookup name r.cursors ≡ some c
    → cursor_by_name name r ≡ ok c
unfolding cursor_by_name
cursor_by_name-some name r h = rw (h, cursor_by_name) refl

cursor_by_name-none :
    (name : Bytes) (r : Registry)
    → lookup name r.cursors ≡ none
    → cursor_by_name name r ≡ err cursor_not_found
unfolding cursor_by_name
cursor_by_name-none name r h = rw (h, cursor_by_name) refl

-- What a statement lists is gone with it.
delete_statement-lost :
    (m name : Bytes) {s c : ℕ} (r : Registry)
    → lookup m r.statements ≡ some s
    → lookup name (r.statement_at s).cursors ≡ some c
    → cursor_by_name name (delete_statement m r) ≡ err cursor_not_found
unfolding drop_statement
delete_statement-lost m name {s} r known listed =
    let r' = delete_cursors (r.statement_at s).cursors r in
    let rest = delete_cursors-IsLeft (r.statement_at s).cursors r in
    rw (delete_statement-known m r known) (elim (Option-cases (lookup name r'.cursors)) [
      | inl (d, still) ↦ absurd (some-ne-none (sym listed ∙ (rest.left name d still).0))
      | inr gone ↦ cursor_by_name-none name (drop_statement m s r') gone
    ])

-- Where a cursor is bound to one statement and then, under the same name, to another, the cursor that
-- is found is that of the other; deleting the first statement, as parsing under its name does,
-- deletes it all the same.
pub add_cursor-lost :
    (c1 c2 : ℕ) (r : Registry) {r1 r2 : Registry}
    → add_cursor c1 r ≡ ok r1
    → add_cursor c2 r1 ≡ ok r2
    → (r.portal_at c1).bind.portal ≡ (r.portal_at c2).bind.portal
    → (r.portal_at c1).statement ≢ (r.portal_at c2).statement
    → (cursor_by_name (r.portal_at c2).bind.portal r2 ≡ ok c2)
      × (cursor_by_name
            (r.portal_at c2).bind.portal
            (delete_statement (r.statement_at (r.portal_at c1).statement).name r2)
          ≡ err cursor_not_found)
unfolding enter_cursor
add_cursor-lost c1 c2 r {r1} {r2} first second same distinct =
    let e1 = add_cursor-IsEntered c1 r first in
    let e2 = add_cursor-IsEntered c2 r1 second in
    let name = (r.portal_at c2).bind.portal in
    let s1 = (r.portal_at c1).statement in
    (
      cursor_by_name-some name r2 (
          ap (lookup name) (rw (e1.same_names c2) at e2.cursors)
          ∙ lookup-insert name name c2 r1.cursors
          ∙ rw (bytes_eq_refl name) refl),
      delete_statement-lost (r.statement_at s1).name name {c = c1} r2
          (rw (e2.same_statements, e1.same_statements) e1.found)
          (ap (λ (h : ℕ → PreparedStatement). lookup name (h s1).cursors) e2.objects
            ∙ ap (λ (x : PreparedStatement). lookup name x.cursors)
                (other_object (r1.portal_at c2).statement s1 _ r1.statement_at
                  (λ e. distinct (sym e ∙ e1.same_owners c2)))
            ∙ ap (λ (h : ℕ → PreparedStatement). lookup name (h s1).cursors) e1.objects
            ∙ ap (λ (x : PreparedStatement). lookup name x.cursors)
                (changed_at-here s1 _ r.statement_at)
            ∙ lookup-insert (r.portal_at c1).bind.portal name c1 (r.statement_at s1).cursors
            ∙ rw (same, bytes_eq_refl name) refl),
    )
