-- ===== src/Postgres/Registry.antt =====
-- The prepared statements and cursors of a connection: decryptor/postgresql/prepared_statements.go.
-- Statements and portals are shared by pointers: they are objects at an address. The syntax tree of a
-- statement is the parser's, and is left out. A deletion never fails, so it has no error.
pub mod Linked
pub mod Cursors
pub mod Reached
pub mod Lost
pub mod Executed
use acra.Base.{
  ℕ, ◌≡◌, Bool, Option, none, some, List, [], ◌∷◌, map, Bytes, ◌==◌, if◌then◌else◌, replicate,
  length,
}
use acra.Base.Dict.{Dict, lookup, insert, delete}
use acra.Base.Outcome.{Outcome, ok, err, panic, ◌>>=◌}
use acra.Postgres.Messages.{BindPacket, ExecutePacket}

pub data RegistryError : Type 0 where
  statement_not_found cursor_not_found : RegistryError

-- `PgPreparedStatement`
pub record PreparedStatement : Type 0 where
  pub name : Bytes
  pub text : Bytes
  pub cursors : Dict ℕ

-- `PgPortal`
pub record Portal : Type 0 where
  pub bind : BindPacket
  pub statement : ℕ

-- `PgPreparedStatementRegistry`, with the objects that it points to
pub record Registry : Type 0 where
  pub statements : Dict ℕ
  pub cursors : Dict ℕ
  pub statement_at : ℕ → PreparedStatement
  pub portal_at : ℕ → Portal

-- an object that is changed
abbrev pub changed_at {ℓ} : {A : Type ℓ} → ℕ → A → (ℕ → A) → ℕ → A
changed_at p x h = λ q. if p == q then x else h q

-- `NewPreparedStatementRegistry`
abbrev pub new_registry : (ℕ → PreparedStatement) → (ℕ → Portal) → Registry
new_registry statement_at portal_at = record {
  statements = [];
  cursors = [];
  statement_at = statement_at;
  portal_at = portal_at;
}

-- `NewPreparedStatement`
abbrev pub new_prepared_statement : Bytes → Bytes → PreparedStatement
new_prepared_statement name text = record { name = name; text = text; cursors = [] }

-- `StatementByName` and `CursorByName`
unfoldable pub statement_by_name : Bytes → Registry → Outcome RegistryError ℕ
unfolding lookup
statement_by_name name r = elim (lookup name r.statements) [
  | none ↦ err statement_not_found
  | some s ↦ ok s
]

unfoldable pub cursor_by_name : Bytes → Registry → Outcome RegistryError ℕ
unfolding lookup
cursor_by_name name r = elim (lookup name r.cursors) [ none ↦ err cursor_not_found | some c ↦ ok c ]

abbrev pub zeroize_value : Option Bytes → Option Bytes
zeroize_value none = none
zeroize_value (some b) = some (replicate (length b) 0)

-- `BindPacket.Zeroize`
abbrev pub zeroize : BindPacket → BindPacket
zeroize b = record b { param_values = map zeroize_value b.param_values }

-- `bind.Zeroize()` of a portal
abbrev pub zeroize_portal : ℕ → Registry → Registry
zeroize_portal c r =
    let p = r.portal_at c in
    record r { portal_at = changed_at c (record p { bind = zeroize p.bind }) r.portal_at }

-- the loop of `DeleteStatement` over the cursors of the statement
unfoldable pub delete_cursors : Dict ℕ → Registry → Registry
unfolding delete
delete_cursors [] r = r
delete_cursors ((name, c) ∷ cs) r =
    let r' = zeroize_portal c r in
    delete_cursors cs (record r' { cursors = delete name r'.cursors })

-- the end of `DeleteStatement`, behind its loop
unfoldable pub drop_statement : Bytes → ℕ → Registry → Registry
unfolding delete
drop_statement name s r =
    let prepared = r.statement_at s in
    record r {
      statement_at = changed_at s (record prepared { cursors = []; text = [] }) r.statement_at;
      statements = delete name r.statements;
    }

-- `DeleteStatement`
unfoldable pub delete_statement : Bytes → Registry → Registry
unfolding delete_cursors drop_statement lookup
delete_statement name r = elim (lookup name r.statements) [
  | none ↦ r
  | some s ↦ drop_statement name s (delete_cursors (r.statement_at s).cursors r)
]

-- `AddStatement`
unfoldable pub add_statement : ℕ → Registry → Registry
unfolding delete_statement insert
add_statement s r =
    let name = (r.statement_at s).name in
    let r' = delete_statement name r in record r' { statements = insert name s r'.statements }

-- the cursor that a new one overrides
unfoldable pub zeroize_overridden : Bytes → Registry → Registry
unfolding lookup
zeroize_overridden name r = elim (lookup name r.cursors) [
  | none ↦ r
  | some old ↦ zeroize_portal old r
]

-- the end of `AddCursor`
unfoldable pub enter_cursor : Bytes → ℕ → ℕ → Registry → Registry
unfolding insert
enter_cursor name c s r =
    let prepared = r.statement_at s in
    record r {
      statement_at =
          changed_at s (record prepared { cursors = insert name c prepared.cursors })
            r.statement_at;
      cursors = insert name c r.cursors;
    }

-- `AddCursor`
unfoldable pub add_cursor : ℕ → Registry → Outcome RegistryError Registry
unfolding enter_cursor zeroize_overridden
add_cursor c r =
    let name = (r.portal_at c).bind.portal in
    let s = (r.portal_at c).statement in
    elim (lookup (r.statement_at s).name r.statements) [
      | none ↦ err statement_not_found
      | some expected ↦
          if expected == s
          then ok (enter_cursor name c s (zeroize_overridden name r))
          else err statement_not_found
    ]

-- the end of `DeleteCursor`
unfoldable pub drop_cursor : Bytes → ℕ → Registry → Registry
unfolding delete
drop_cursor name s r =
    let prepared = r.statement_at s in
    record r {
      statement_at =
          changed_at s (record prepared { cursors = delete name prepared.cursors }) r.statement_at;
      cursors = delete name r.cursors;
    }

-- `DeleteCursor`
unfoldable pub delete_cursor : Bytes → Registry → Registry
unfolding lookup drop_cursor
delete_cursor name r = elim (lookup name r.cursors) [
  | none ↦ r
  | some c ↦ drop_cursor name (r.portal_at c).statement r
]

-- registerPreparedStatement, behind the parser, of a new object at an address
unfoldable pub register_prepared_statement : ℕ → Bytes → Bytes → Registry → Registry
unfolding add_statement
register_prepared_statement s name text r =
    add_statement s
      (record r { statement_at = changed_at s (new_prepared_statement name text) r.statement_at })

-- registerCursor, of a new object at an address
unfoldable pub register_cursor : ℕ → BindPacket → Registry → Outcome RegistryError Registry
unfolding statement_by_name add_cursor
register_cursor c b r = do
  s ← statement_by_name b.statement r
  add_cursor c
      (record r { portal_at = changed_at c (record { bind = b; statement = s }) r.portal_at })

-- what handleClientPacket finds for an Execute packet: the text and the portal of its query
unfoldable pub executed_query :
    ExecutePacket → Registry → Outcome RegistryError (Bytes × BindPacket)
unfolding cursor_by_name
executed_query e r = do
  c ← cursor_by_name e.portal r
  ok ((r.statement_at (r.portal_at c).statement).text, (r.portal_at c).bind)
