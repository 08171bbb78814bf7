-- ===== src/Postgres/Registry/Executed.antt =====
-- An Execute packet finds what was parsed and bound for it.
use acra.Base.{
  ℕ, ◌≡◌, ◌≢◌, refl, sym, ap, ◌∙◌, some, Bytes, inl, inr, Option-cases, ==_refl, bytes_eq_refl,
}
use acra.Base.Dict.{lookup, lookup-insert}
use acra.Base.Outcome.{ok}
use acra.Postgres.Messages.{BindPacket, ExecutePacket}
use acra.Postgres.Registry.{
  PreparedStatement, Portal, Registry, changed_at, statement_by_name, cursor_by_name,
  delete_cursors, drop_statement, delete_statement, add_statement, zeroize_overridden, enter_cursor,
  add_cursor, new_prepared_statement, register_prepared_statement, register_cursor, executed_query,
}
use acra.Postgres.Registry.Linked.{
  changed_at-kept, changed_at-here, other_object, delete_cursors-IsLeft, delete_statement-known,
  delete_statement-unknown,
}

-- An object that is not the one of the name stays, and no cursor is added.
delete_statement-kept :
    (name : Bytes) (r : Registry) (s : ℕ)
    → lookup name r.statements ≢ some s
    → ((delete_statement name r).statement_at s ≡ r.statement_at s)
      × ((n : Bytes) (c : ℕ)
          → lookup n r.cursors ≢ some c
          → lookup n (delete_statement name r).cursors ≢ some c)
unfolding drop_statement
delete_statement-kept name r s fresh = elim (Option-cases (lookup name r.statements)) [
  | inl (t, known) ↦
      let rest = delete_cursors-IsLeft (r.statement_at t).cursors r in
      rw (delete_statement-known name r known) (
        other_object t s _ (delete_cursors (r.statement_at t).cursors r).statement_at
              (λ same. fresh (known ∙ ap some same))
            ∙ rest.same_objects s,
        λ n c other found. other (rest.left n c found).1,
      )
  | inr unknown ↦ rw (delete_statement-unknown name r unknown) (refl, λ n c other. other)
]

-- A portal that is not overridden stays, as do all statements.
zeroize_overridden-kept :
    (name : Bytes) (r : Registry) (c : ℕ)
    → lookup name r.cursors ≢ some c
    → ((zeroize_overridden name r).portal_at c ≡ r.portal_at c)
      × ((zeroize_overridden name r).statement_at ≡ r.statement_at)
      × ((zeroize_overridden name r).cursors ≡ r.cursors)
unfolding zeroize_overridden
zeroize_overridden-kept name r c fresh = elim (Option-cases (lookup name r.cursors)) [
  | inl (old, known) ↦
      rw (known, zeroize_overridden)
        (other_object old c _ r.portal_at (λ same. fresh (known ∙ ap some same)), refl, refl)
  | inr unknown ↦ rw (unknown, zeroize_overridden) (refl, refl, refl)
]

executed_query-found :
    (e : ExecutePacket) (r : Registry) {c : ℕ}
    → lookup e.portal r.cursors ≡ some c
    → executed_query e r
      ≡ ok ((r.statement_at (r.portal_at c).statement).text, (r.portal_at c).bind)
unfolding executed_query cursor_by_name
executed_query-found e r h = rw (h, cursor_by_name, executed_query) refl

-- A cursor of a registered statement is entered, and an Execute packet finds both.
add_cursor-executed :
    (c : ℕ) (e : ExecutePacket) (r : Registry)
    → lookup (r.statement_at (r.portal_at c).statement).name r.statements
      ≡ some (r.portal_at c).statement
    → lookup (r.portal_at c).bind.portal r.cursors ≢ some c
    → e.portal ≡ (r.portal_at c).bind.portal
    → (r' : Registry) × (add_cursor c r ≡ ok r')
      × (executed_query e r'
          ≡ ok ((r.statement_at (r.portal_at c).statement).text, (r.portal_at c).bind))
unfolding add_cursor enter_cursor
add_cursor-executed c e r known fresh same =
    let name = (r.portal_at c).bind.portal in
    let s = (r.portal_at c).statement in
    let zeroized = zeroize_overridden name r in
    let entered = enter_cursor name c s zeroized in
    let (portal, objects, cursors) = zeroize_overridden-kept name r c fresh in
    (
      entered,
      rw (known, ==_refl s, add_cursor) refl,
      executed_query-found e entered
            (lookup-insert name e.portal c zeroized.cursors ∙ rw (same, bytes_eq_refl name) refl)
          ∙ ap (λ (p : Portal). ok ((entered.statement_at p.statement).text, p.bind)) portal
          ∙ ap (λ (t : Bytes). ok (t, (r.portal_at c).bind))
              (changed_at-kept (λ (x : PreparedStatement). x.text) s _ zeroized.statement_at s refl
                ∙ ap (λ (h : ℕ → PreparedStatement). (h s).text) objects),
    )

add_statement-kept :
    (s : ℕ) (r : Registry)
    → lookup (r.statement_at s).name r.statements ≢ some s
    → (lookup (r.statement_at s).name (add_statement s r).statements ≡ some s)
      × ((add_statement s r).statement_at s ≡ r.statement_at s)
      × ((n : Bytes) (c : ℕ)
          → lookup n r.cursors ≢ some c
          → lookup n (add_statement s r).cursors ≢ some c)
unfolding add_statement
add_statement-kept s r fresh =
    let name = (r.statement_at s).name in
    let (kept, others) = delete_statement-kept name r s fresh in
    (
      lookup-insert name name s (delete_statement name r).statements ∙ rw (bytes_eq_refl name) refl,
      kept,
      others,
    )

-- What a Parse packet makes of the registry: the statement is found, as it was parsed.
register_prepared_statement-kept :
    (s : ℕ) (name text : Bytes) (r : Registry)
    → lookup name r.statements ≢ some s
    → (lookup name (register_prepared_statement s name text r).statements ≡ some s)
      × ((register_prepared_statement s name text r).statement_at s
          ≡ new_prepared_statement name text)
      × ((n : Bytes) (c : ℕ)
          → lookup n r.cursors ≢ some c
          → lookup n (register_prepared_statement s name text r).cursors ≢ some c)
unfolding register_prepared_statement
register_prepared_statement-kept s name text r fresh =
    let prepared = new_prepared_statement name text in
    let here = changed_at-here s prepared r.statement_at in
    let named = ap (λ (x : PreparedStatement). x.name) here in
    let (found, kept, others) =
      add_statement-kept s (record r { statement_at = changed_at s prepared r.statement_at })
        (λ h. fresh (ap (λ n. lookup n r.statements) (sym named) ∙ h)) in
    (
      ap (λ n. lookup n (register_prepared_statement s name text r).statements) (sym named) ∙ found,
      kept ∙ here,
      others,
    )

-- A new portal of a statement is entered, and an Execute packet finds both.
register_cursor-executed :
    (c s : ℕ) (text : Bytes) (b : BindPacket) (e : ExecutePacket) (r : Registry)
    → lookup b.statement r.statements ≡ some s
    → r.statement_at s ≡ new_prepared_statement b.statement text
    → lookup b.portal r.cursors ≢ some c
    → e.portal ≡ b.portal
    → (r' : Registry) × (register_cursor c b r ≡ ok r') × (executed_query e r' ≡ ok (text, b))
unfolding register_cursor statement_by_name
register_cursor-executed c s text b e r found at_s fresh same =
    let portal : Portal = record { bind = b; statement = s } in
    let bound : Registry = record r { portal_at = changed_at c portal r.portal_at } in
    let here = changed_at-here c portal r.portal_at in
    let owner = ap (λ (p : Portal). p.statement) here in
    let named = ap (λ (p : Portal). p.bind.portal) here in
    let (r', added, executed) =
      add_cursor-executed c e bound
        (ap (λ t. lookup (r.statement_at t).name r.statements) owner
          ∙ ap (λ (x : PreparedStatement). lookup x.name r.statements) at_s
          ∙ found
          ∙ ap some (sym owner))
        (λ h. fresh (ap (λ n. lookup n r.cursors) (sym named) ∙ h)) (same ∙ sym named) in
    (
      r',
      rw (found, statement_by_name, register_cursor) added,
      executed
          ∙ ap (λ (p : Portal). ok ((r.statement_at p.statement).text, p.bind)) here
          ∙ ap (λ (x : PreparedStatement). ok (x.text, b)) at_s,
    )

-- Where a statement is parsed and a portal is bound to it, both as new objects, the portal is
-- registered, and an Execute packet for it finds the text that was parsed and the Bind packet as it
-- was sent.
pub register-executed :
    (s c : ℕ) (text : Bytes) (b : BindPacket) (e : ExecutePacket) (r : Registry)
    → lookup b.statement r.statements ≢ some s
    → lookup b.portal r.cursors ≢ some c
    → e.portal ≡ b.portal
    → (r' : Registry) × (register_cursor c b (register_prepared_statement s b.statement text r)
        ≡ ok r')
      × (executed_query e r' ≡ ok (text, b))
register-executed s c text b e r fresh_statement fresh_portal same =
    let (found, at_s, others) =
      register_prepared_statement-kept s b.statement text r fresh_statement in
    register_cursor-executed c s text b e (register_prepared_statement s b.statement text r) found
      at_s (others b.portal c fresh_portal) same
