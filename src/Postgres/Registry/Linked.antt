-- ===== src/Postgres/Registry/Linked.antt =====
-- Every cursor of the registry belongs to a statement of the registry, which lists it; the calls on
-- statements keep that.
use acra.Base.{
  ℕ, ◌≡◌, ◌≢◌, refl, sym, ap, ◌∙◌, Bool, true, false, Option, none, some, [], ◌∷◌, Bytes, ◌==◌,
  if◌then◌else◌, inl, inr, Bool-cases, Option-cases, ==_iff, ne→==, ==_refl, bytes_eq, bytes_eq_iff,
  bytes_eq_refl,
}
use acra.Base.Dict.{Dict, lookup, insert, delete, lookup-insert, lookup-delete}
use acra.Postgres.Registry.{
  PreparedStatement, Portal, Registry, changed_at, zeroize_portal, delete_cursors, delete_statement,
  add_statement, drop_statement,
}

-- a cursor with the statement that it belongs to
abbrev pub IsCursor : Registry → Bytes → ℕ → ℕ → Type 0
IsCursor r name c s =
    ((r.portal_at c).statement ≡ s)
    × (lookup name (r.statement_at s).cursors ≡ some c)
    × (lookup (r.statement_at s).name r.statements ≡ some s)

pub record IsLinked (r : Registry) : Type 0 where
  pub named :
      (name : Bytes) (s : ℕ) → lookup name r.statements ≡ some s → (r.statement_at s).name ≡ name
  pub linked :
      (name : Bytes) (c : ℕ) → lookup name r.cursors ≡ some c → (s : ℕ) × IsCursor r name c s

pub some_else :
    {A : Type 0} (test : Bool) {o : Option A} {a : A}
    → (if test then none else o) ≡ some a
    → (test ≡ false) × (o ≡ some a)
some_else true h = cc
some_else false h = (refl, h)

-- A change of an object that keeps a part of it keeps that part of all objects.
pub changed_at-kept :
    {A B : Type 0} (f : A → B) (p : ℕ) (x : A) (h : ℕ → A) (q : ℕ)
    → f x ≡ f (h p)
    → f (changed_at p x h q) ≡ f (h q)
changed_at-kept f p x h q e = elim (Bool-cases (p == q)) [
  | inl same ↦ rw same (e ∙ ap (λ z. f (h z)) ((==_iff p q).0 same))
  | inr other ↦ rw other refl
]

-- what the loop leaves as it is, and what it removes
delete_cursors_lem :
    (cs : Dict ℕ) (r : Registry)
    → ((delete_cursors cs r).statements ≡ r.statements)
      × ((delete_cursors cs r).statement_at ≡ r.statement_at)
      × ((d : ℕ) → ((delete_cursors cs r).portal_at d).statement ≡ (r.portal_at d).statement)
      × ((name : Bytes) (c : ℕ)
          → lookup name (delete_cursors cs r).cursors ≡ some c
          → (lookup name cs ≡ none) × (lookup name r.cursors ≡ some c))
unfolding delete_cursors lookup
delete_cursors_lem [] r = (refl, refl, λ d. refl, λ name c h. (refl, h))
delete_cursors_lem ((n, p) ∷ cs) r =
    let r' = zeroize_portal p r in
    let (same, objects, portals, left) =
      delete_cursors_lem cs (record r' { cursors = delete n r'.cursors }) in
    (
      same,
      objects,
      λ d. portals d ∙ changed_at-kept (λ (x : Portal). x.statement) p _ r.portal_at d refl,
      λ name c h.
          let (unlisted, found) = left name c h in
          let (other, still) =
            some_else (bytes_eq n name) (sym (lookup-delete n name r.cursors) ∙ found) in
          (rw other unlisted, still),
    )

-- what a registry is behind that loop
pub record IsLeft (cs : Dict ℕ) (r r' : Registry) : Type 0 where
  pub same_statements : r'.statements ≡ r.statements
  pub same_objects : (s : ℕ) → r'.statement_at s ≡ r.statement_at s
  pub same_portals : (d : ℕ) → (r'.portal_at d).statement ≡ (r.portal_at d).statement
  pub left :
      (name : Bytes) (c : ℕ)
      → lookup name r'.cursors ≡ some c
      → (lookup name cs ≡ none) × (lookup name r.cursors ≡ some c)

pub changed_at-here : {A : Type 0} (p : ℕ) (x : A) (h : ℕ → A) → changed_at p x h p ≡ x
changed_at-here p x h = rw (==_refl p) refl

pub other_object : {A : Type 0} (p q : ℕ) (x : A) (h : ℕ → A) → p ≢ q → changed_at p x h q ≡ h q
other_object p q x h e = rw (ne→== p q e) refl

pub some-ne-none : {A : Type 0} {a : A} → some a ≡ none → ⊥
some-ne-none h = cc

pub some_injective : {A : Type 0} {a b : A} → some a ≡ some b → a ≡ b
some_injective h = cc

-- Names of different objects differ.
distinct_names :
    (name other : Bytes) (m : Dict ℕ) {s t : ℕ}
    → lookup name m ≡ some s
    → lookup other m ≡ some t
    → s ≢ t
    → bytes_eq name other ≡ false
distinct_names name other m h k distinct = elim (Bool-cases (bytes_eq name other)) [
  | inl same ↦
      let e = (bytes_eq_iff name other).0 same in
      absurd (distinct (some_injective (sym h ∙ rw e k)))
  | inr differ ↦ differ
]

drop_statement-IsLinked :
    (name : Bytes) (s : ℕ) (r r' : Registry)
    → lookup name r.statements ≡ some s
    → IsLeft (r.statement_at s).cursors r r'
    → IsLinked r
    → IsLinked (drop_statement name s r')
unfolding drop_statement
drop_statement-IsLinked name s r r' known rest h = record {
  named = λ n t e.
      let (other, found) =
        some_else (bytes_eq name n) (sym (lookup-delete name n r'.statements) ∙ e) in
      changed_at-kept (λ (x : PreparedStatement). x.name) s _ r'.statement_at t refl
      ∙ ap (λ (x : PreparedStatement). x.name) (rest.same_objects t)
      ∙ h.named n t (rw rest.same_statements at found);
  linked = λ n c e.
      let (unlisted, found) = rest.left n c e in
      let (t, is_cursor) = h.linked n c found in
      let (owner, listed, registered) = is_cursor in
      let distinct : s ≢ t = λ same. some-ne-none (sym listed ∙ rw same at unlisted) in
      let kept = other_object s t _ r'.statement_at distinct ∙ rest.same_objects t in
      (
        t,
        (
          rest.same_portals c ∙ owner,
          ap (λ (x : PreparedStatement). lookup n x.cursors) kept ∙ listed,
          ap (λ (x : PreparedStatement). lookup x.name (delete name r'.statements)) kept
              ∙ lookup-delete name (r.statement_at t).name r'.statements
              ∙ rw
                  (
                    distinct_names name (r.statement_at t).name r.statements known registered
                        distinct,
                    rest.same_statements,
                  )
                  registered,
        ),
      );
}

pub delete_cursors-IsLeft : (cs : Dict ℕ) (r : Registry) → IsLeft cs r (delete_cursors cs r)
delete_cursors-IsLeft cs r =
    let (same, objects, portals, left) = delete_cursors_lem cs r in
    record {
      same_statements = same;
      same_objects = λ s. ap (λ (h : ℕ → PreparedStatement). h s) objects;
      same_portals = portals;
      left = left;
    }

pub delete_statement-known :
    (name : Bytes) (r : Registry) {s : ℕ}
    → lookup name r.statements ≡ some s
    → delete_statement name r ≡ drop_statement name s (delete_cursors (r.statement_at s).cursors r)
unfolding delete_statement
delete_statement-known name r known = rw (known, delete_statement) refl

pub delete_statement-unknown :
    (name : Bytes) (r : Registry) → lookup name r.statements ≡ none → delete_statement name r ≡ r
unfolding delete_statement
delete_statement-unknown name r unknown = rw (unknown, delete_statement) refl

pub delete_statement-IsLinked :
    (name : Bytes) (r : Registry) → IsLinked r → IsLinked (delete_statement name r)
delete_statement-IsLinked name r h = elim (Option-cases (lookup name r.statements)) [
  | inl (s, known) ↦ rw (delete_statement-known name r known) (
      drop_statement-IsLinked name s r (delete_cursors (r.statement_at s).cursors r) known
        (delete_cursors-IsLeft (r.statement_at s).cursors r) h)
  | inr unknown ↦ rw (delete_statement-unknown name r unknown) h
]

-- The name is free, and the names of the objects stay.
delete_statement-free :
    (name : Bytes) (r : Registry)
    → (lookup name (delete_statement name r).statements ≡ none)
      × ((s : ℕ) → ((delete_statement name r).statement_at s).name ≡ (r.statement_at s).name)
unfolding drop_statement
delete_statement-free name r = elim (Option-cases (lookup name r.statements)) [
  | inl (s, known) ↦
      let rest = delete_cursors-IsLeft (r.statement_at s).cursors r in
      let r' = delete_cursors (r.statement_at s).cursors r in
      rw (delete_statement-known name r known) (
        lookup-delete name name r'.statements ∙ rw (bytes_eq_refl name) refl,
        λ t.
            changed_at-kept (λ (x : PreparedStatement). x.name) s _ r'.statement_at t refl
            ∙ ap (λ (x : PreparedStatement). x.name) (rest.same_objects t),
      )
  | inr unknown ↦ rw (delete_statement-unknown name r unknown) (unknown, λ s. refl)
]

-- A name that is free is not that of an object.
free_name :
    (name other : Bytes) (m : Dict ℕ) {t : ℕ}
    → lookup name m ≡ none
    → lookup other m ≡ some t
    → bytes_eq name other ≡ false
free_name name other m h k = elim (Bool-cases (bytes_eq name other)) [
  | inl same ↦ let e = (bytes_eq_iff name other).0 same in absurd (some-ne-none (sym k ∙ rw e at h))
  | inr differ ↦ differ
]

-- A statement is entered under its name, which is free.
insert-IsLinked :
    (name : Bytes) (s : ℕ) (r : Registry)
    → (r.statement_at s).name ≡ name
    → lookup name r.statements ≡ none
    → IsLinked r
    → IsLinked (record r { statements = insert name s r.statements })
insert-IsLinked name s r own free h = record {
  named = λ n t e. elim (Bool-cases (bytes_eq name n)) [
    | inl same ↦
        let hit = some_injective (rw same at (sym (lookup-insert name n s r.statements) ∙ e)) in
        sym (ap (λ z. (r.statement_at z).name) hit) ∙ own ∙ (bytes_eq_iff name n).0 same
    | inr other ↦ h.named n t (rw other at (sym (lookup-insert name n s r.statements) ∙ e))
  ];
  linked = λ n c e.
      let (t, is_cursor) = h.linked n c e in
      let (owner, listed, registered) = is_cursor in
      (
        t,
        (
          owner,
          listed,
          lookup-insert name (r.statement_at t).name s r.statements
              ∙ rw (free_name name (r.statement_at t).name r.statements free registered) registered,
        ),
      );
}

pub add_statement-IsLinked : (s : ℕ) (r : Registry) → IsLinked r → IsLinked (add_statement s r)
unfolding add_statement
add_statement-IsLinked s r h =
    let name = (r.statement_at s).name in
    let (free, names) = delete_statement-free name r in
    insert-IsLinked name s (delete_statement name r) (names s) free
      (delete_statement-IsLinked name r h)
