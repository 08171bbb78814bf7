-- ===== src/Censor/Chain.antt =====
-- The chain of handlers: acra-censor/acra-censor_implementation.go. The identities of handlers, which
-- RemoveHandler compares, are their names here.
pub mod Decides
use acra.Base.{
  ℕ, ◌≡◌, Bool, true, false, not, ◌&&◌, Option, none, some, List, [], ◌∷◌, ◌++◌, Bytes, bytes_eq,
  text, map, if◌then◌else◌,
}
use acra.Base.Outcome.{Outcome, ok, err, panic, ◌>>=◌, ◌>>◌}
use acra.Censor.Handlers.{
  CensorError, query_syntax_error, deny_all_error, Parser, Parsed, QueryWriter, write_query,
  Handler, Rules, allow, deny, allow_all, deny_all, query_ignore, query_capture, check_allowed,
  check_denied, check_ignored, reset, add_queries, add_tables, add_patterns, add_ignored,
  censor_configuration_error,
}

-- What a handler says of a query: `continueHandling` and the error.
pub data Decision : Type 0 where
  undecided allowed : Decision
  denied : CensorError → Decision

module _ (parser : Parser) where
  open parser use {Statement, handle_raw_sql_query}

  -- a query, with what the parser made of it
  pub record Query : Type 0 where
    pub raw : Bytes
    pub normalized : Bytes
    pub redacted : Bytes
    pub statement : Option Statement

  abbrev pub goes_on : Bool → Decision
  goes_on true = undecided
  goes_on false = allowed

  abbrev pub forbids : Option CensorError → Decision
  forbids none = undecided
  forbids (some e) = denied e

  -- `CheckQuery`, as the censor calls it; a handler with rules passes over a query without a
  -- statement
  unfoldable pub decide : Handler parser → Query → Decision
  decide (allow r) q = elim q.statement [
    | none ↦ undecided
    | some s ↦ goes_on (check_allowed parser r q.normalized s)
  ]
  decide (deny r) q = elim q.statement [
    | none ↦ undecided
    | some s ↦ forbids (check_denied parser r q.normalized s)
  ]
  decide allow_all q = allowed
  decide deny_all q = denied deny_all_error
  decide (query_ignore ignored) q = goes_on (check_ignored parser ignored q.raw)
  decide (query_capture w) q = undecided

  -- a capturing handler writes the query down
  unfoldable pub after_check : Handler parser → Query → Handler parser
  after_check (query_capture w) q = elim q.statement [
    | none ↦ query_capture w
    | some s ↦ query_capture (write_query q.redacted w)
  ]
  after_check h q = h

  pub record AcraCensor : Type 0 where
    pub handlers : List (Handler parser)
    pub ignore_parse_error : Bool
    pub unparsed_queries_writer : Option QueryWriter

  -- the loop of `HandleQuery`
  unfoldable pub check_all :
      List (Handler parser) → Query → List (Handler parser) × Outcome CensorError (Unit {0})
  unfolding decide after_check
  check_all [] q = ([], ok tt)
  check_all (h ∷ hs) q = elim (decide h q) [
    | undecided ↦ let (hs1, r) = check_all hs q in (after_check h q ∷ hs1, r)
    | allowed ↦ (h ∷ hs, ok tt)
    | denied e ↦ (h ∷ hs, err e)
  ]

  abbrev pub save_unparsed_query : Bytes → Option QueryWriter → Option QueryWriter
  save_unparsed_query raw none = none
  save_unparsed_query raw (some w) = some (write_query raw w)

  -- no handler, and nothing to write to
  unfoldable pub is_idle : List (Handler parser) → Option QueryWriter → Bool
  is_idle [] none = true
  is_idle _ _ = false

  -- what the handlers see of a query, unless it is refused without them
  unfoldable pub query_of : Bool → Bytes → Option Query
  query_of ignore_parse_error raw = elim (handle_raw_sql_query raw) [
    | none ↦
        if ignore_parse_error
        then some (record { raw = raw; normalized = []; redacted = []; statement = none })
        else none
    | some p ↦ some (record {
      raw = raw;
      normalized = p.normalized;
      redacted = p.redacted;
      statement = some p.statement;
    })
  ]

  -- the unparsed query is written down
  abbrev pub noted : Bytes → AcraCensor → AcraCensor
  noted raw c = elim (handle_raw_sql_query raw) [
    | none ↦ record c {
      unparsed_queries_writer = save_unparsed_query raw c.unparsed_queries_writer;
    }
    | some p ↦ c
  ]

  abbrev pub with_handlers : List (Handler parser) → AcraCensor → AcraCensor
  with_handlers hs c = record c { handlers = hs }

  -- `HandleQuery`
  unfoldable pub handle_query : Bytes → AcraCensor → AcraCensor × Outcome CensorError (Unit {0})
  unfolding query_of check_all
  handle_query raw c =
      if is_idle c.handlers c.unparsed_queries_writer
      then (c, ok tt)
      else elim (query_of c.ignore_parse_error raw) [
        | none ↦ (noted raw c, err query_syntax_error)
        | some q ↦ let (hs, r) = check_all c.handlers q in (with_handlers hs (noted raw c), r)
      ]

  -- `AddHandler`
  abbrev pub add_handler : Handler parser → AcraCensor → AcraCensor
  add_handler h c = record c { handlers = c.handlers ++ h ∷ [] }

  -- `Release` of each handler
  abbrev pub release : Handler parser → Handler parser
  release (allow r) = allow (reset parser r)
  release (deny r) = deny (reset parser r)
  release (query_ignore ignored) = query_ignore []
  release h = h

  -- `ReleaseAll`; the writers end in the background
  abbrev pub release_all : AcraCensor → AcraCensor
  release_all c = record c { handlers = map release c.handlers; ignore_parse_error = false }

  -- the configuration of a handler
  pub record HandlerConfig : Type 0 where
    pub handler : Bytes
    pub queries : List Bytes
    pub tables : List Bytes
    pub config_patterns : List Bytes
    pub file_path : Bytes

  abbrev pub no_rules : Rules parser
  no_rules = record { queries = []; tables = []; rule_patterns = [] }

  -- queries, tables and patterns of a new handler
  unfoldable pub load_rules : HandlerConfig → Outcome CensorError (Rules parser)
  load_rules config =
      let (r1, added) = add_queries parser config.queries no_rules in
      added
      >> (let (r2, set) =
            add_patterns parser config.config_patterns (add_tables parser config.tables r1) in
          set >> ok r2)

  -- the handler that a configuration asks for, with `NewFileQueryWriter`
  unfoldable pub load_handler :
      (Bytes → Outcome CensorError QueryWriter)
      → HandlerConfig
      → Outcome CensorError (Handler parser)
  unfolding load_rules
  load_handler new_file_query_writer config =
      if bytes_eq config.handler (text "allow")
      then (load_rules config >>= λ r. ok (allow r))
      else if bytes_eq config.handler (text "deny")
      then (load_rules config >>= λ r. ok (deny r))
      else if bytes_eq config.handler (text "allowall")
      then ok allow_all
      else if bytes_eq config.handler (text "denyall")
      then ok deny_all
      else if bytes_eq config.handler (text "query_ignore")
      then ok (query_ignore (add_ignored parser config.queries []))
      else if bytes_eq config.handler (text "query_capture")
      then (new_file_query_writer config.file_path >>= λ w. ok (query_capture w))
      else err censor_configuration_error

  -- The loop of `LoadConfiguration`: an error leaves the handlers in front of it in the censor.
  unfoldable pub load_handlers :
      (Bytes → Outcome CensorError QueryWriter)
      → List HandlerConfig
      → AcraCensor
      → AcraCensor × Outcome CensorError (Unit {0})
  load_handlers new_file_query_writer [] c = (c, ok tt)
  load_handlers new_file_query_writer (config ∷ configs) c =
      elim (load_handler new_file_query_writer config) [
        | ok h ↦ load_handlers new_file_query_writer configs (add_handler h c)
        | err e ↦ (c, err e)
        | panic ↦ (c, panic)
      ]
