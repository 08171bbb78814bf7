-- ===== src/Postgres/Registry/Cursors.antt =====
-- The calls on cursors keep cursors and statements linked.
use acra.Base.{
  ℕ, ◌≡◌, refl, sym, ap, ◌∙◌, some, Bytes, ◌==◌, inl, inr, ◌⊎◌, Bool-cases, Option-cases, ==_iff,
  bytes_eq,
}
use acra.Base.Dict.{lookup, lookup-insert, lookup-delete}
use acra.Base.Outcome.{ok, ok_injective}
use acra.Postgres.Registry.{
  PreparedStatement, Portal, Registry, zeroize_portal, zeroize_overridden, enter_cursor, add_cursor,
  delete_cursor, drop_cursor,
}
use acra.Postgres.Registry.Linked.{
  IsLinked, changed_at-kept, changed_at-here, some_else, some_injective,
}

-- A portal is zeroized.
zeroize_portal-IsLinked : (c : ℕ) (r : Registry) → IsLinked r → IsLinked (zeroize_portal c r)
zeroize_portal-IsLinked c r h = record {
  named = h.named;
  linked = λ n d e.
      let (t, is_cursor) = h.linked n d e in
      let (owner, listed, registered) = is_cursor in
      (
        t,
        (
          changed_at-kept (λ (x : Portal). x.statement) c _ r.portal_at d refl ∙ owner,
          listed,
          registered,
        ),
      );
}

pub zeroize_overridden-cases :
    (name : Bytes) (r : Registry)
    → (zeroize_overridden name r ≡ r)
      ⊎ ((old : ℕ) × (zeroize_overridden name r ≡ zeroize_portal old r))
unfolding zeroize_overridden
zeroize_overridden-cases name r = elim (Option-cases (lookup name r.cursors)) [
  | inl (old, known) ↦ inr (old, rw (known, zeroize_overridden) refl)
  | inr unknown ↦ inl (rw (unknown, zeroize_overridden) refl)
]

enter_cursor-IsLinked :
    (name : Bytes) (c s : ℕ) (r : Registry)
    → (r.portal_at c).statement ≡ s
    → lookup (r.statement_at s).name r.statements ≡ some s
    → IsLinked r
    → IsLinked (enter_cursor name c s r)
unfolding enter_cursor
enter_cursor-IsLinked name c s r own known h = record {
  named = λ n t e.
      changed_at-kept (λ (x : PreparedStatement). x.name) s _ r.statement_at t refl ∙ h.named n t e;
  linked = λ n d e. elim (Bool-cases (bytes_eq name n)) [
    | inl same ↦
        let hit = some_injective (rw same at (sym (lookup-insert name n c r.cursors) ∙ e)) in
        (
          s,
          (
            ap (λ z. (r.portal_at z).statement) (sym hit) ∙ own,
            ap (λ (x : PreparedStatement). lookup n x.cursors) (changed_at-here s _ r.statement_at)
                ∙ lookup-insert name n c (r.statement_at s).cursors
                ∙ rw same (ap some hit),
            changed_at-kept (λ (x : PreparedStatement). lookup x.name r.statements) s _
                  r.statement_at s refl
                ∙ known,
          ),
        )
    | inr other ↦
        let (t, is_cursor) =
          h.linked n d (rw other at (sym (lookup-insert name n c r.cursors) ∙ e)) in
        let (owner, listed, registered) = is_cursor in
        (
          t,
          (
            owner,
            changed_at-kept (λ (x : PreparedStatement). lookup n x.cursors) s _ r.statement_at t
                  (lookup-insert name n c (r.statement_at s).cursors ∙ rw other refl)
                ∙ listed,
            changed_at-kept (λ (x : PreparedStatement). lookup x.name r.statements) s _
                  r.statement_at t refl
                ∙ registered,
          ),
        )
  ];
}

drop_cursor-IsLinked :
    (name : Bytes) (s : ℕ) (r : Registry) → IsLinked r → IsLinked (drop_cursor name s r)
unfolding drop_cursor
drop_cursor-IsLinked name s r h = record {
  named = λ n t e.
      changed_at-kept (λ (x : PreparedStatement). x.name) s _ r.statement_at t refl ∙ h.named n t e;
  linked = λ n d e.
      let (other, found) = some_else (bytes_eq name n) (sym (lookup-delete name n r.cursors) ∙ e) in
      let (t, is_cursor) = h.linked n d found in
      let (owner, listed, registered) = is_cursor in
      (
        t,
        (
          owner,
          changed_at-kept (λ (x : PreparedStatement). lookup n x.cursors) s _ r.statement_at t
                (lookup-delete name n (r.statement_at s).cursors ∙ rw other refl)
              ∙ listed,
          changed_at-kept (λ (x : PreparedStatement). lookup x.name r.statements) s _ r.statement_at
                t refl
              ∙ registered,
        ),
      );
}

-- The parts of the registry that AddCursor reads stay where a cursor is overridden.
pub add_cursor-IsLinked :
    (c : ℕ) (r : Registry) {r' : Registry} → IsLinked r → add_cursor c r ≡ ok r' → IsLinked r'
unfolding add_cursor
add_cursor-IsLinked c r h e =
    let name = (r.portal_at c).bind.portal in
    let s = (r.portal_at c).statement in
    elim (Option-cases (lookup (r.statement_at s).name r.statements)) [
      | inr unknown ↦ let e' = rw (unknown, add_cursor) at e in cc
      | inl (expected, known) ↦ elim (Bool-cases (expected == s)) [
        | inr other ↦ let e' = rw (known, other, add_cursor) at e in cc
        | inl same ↦
            let found = known ∙ ap some ((==_iff expected s).0 same) in
            let made = ok_injective (rw (known, same, add_cursor) at e) in
            elim (zeroize_overridden-cases name r) [
              | inl kept ↦ rw (sym made, kept) (enter_cursor-IsLinked name c s r refl found h)
              | inr (old, zeroized) ↦
                  rw (sym made, zeroized)
                    (enter_cursor-IsLinked name c s (zeroize_portal old r)
                      (changed_at-kept (λ (x : Portal). x.statement) old _ r.portal_at c refl) found
                      (zeroize_portal-IsLinked old r h))
            ]
      ]
    ]

pub delete_cursor-IsLinked :
    (name : Bytes) (r : Registry) → IsLinked r → IsLinked (delete_cursor name r)
unfolding delete_cursor
delete_cursor-IsLinked name r h = elim (Option-cases (lookup name r.cursors)) [
  | inl (c, known) ↦
      rw (known, delete_cursor) (drop_cursor-IsLinked name (r.portal_at c).statement r h)
  | inr unknown ↦ rw (unknown, delete_cursor) h
]
