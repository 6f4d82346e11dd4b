-- ===== src/System/Refusal.antt =====
-- A query that is refused, from the model's call to what the model is told.
use open_warehouse_agent.Base.Int.{ℤ, min_ℤ}
use open_warehouse_agent.Connector.Protocol.{Cell, WarehouseConnector, Driver}
use open_warehouse_agent.Connector.SqlGuard.{Sqlglot, enforce_select_only}
use open_warehouse_agent.Connector.SqlGuard.SelectOnly.{
  IsOneSelect, IsUnsafe, RaisesParseErrors, enforce_select_only-decides,
}
use open_warehouse_agent.Connector.Contract.{Backend, connector_of, duckdb, snowflake, databricks}
use open_warehouse_agent.McpServer.Server.{Server, query, call, run_query, Times, failure}
use open_warehouse_agent.McpServer.Server.Dicts.{tool_answer}
use open_warehouse_agent.McpServer.Audit.Lines.{line_feeds, line_feeds-record_entry}
use open_warehouse_agent.Agent.McpClient.{
  text_or, first_text, McpToolClient, ToolResult, call_tool, read_result,
}
use open_warehouse_agent.Agent.Cli.{tool_executor}
use open_warehouse_agent.Agent.Cli.Startup.{Sdk}
use open_warehouse_agent.Connector.Duckdb
use open_warehouse_agent.Connector.Snowflake
use open_warehouse_agent.Connector.Databricks
use open_warehouse_agent.System.{tool_answer, Link, served}
use open_warehouse_agent.Py.Str.{Str, str}
use open_warehouse_agent.Py.Json.{Json}
use open_warehouse_agent.Py.Result.{Result, ok, err, unsafe_query_error}
use open_warehouse_agent.Base.{◌+◌, ◌≡◌, refl, ap, ◌∙◌, inl, inr, true, some, ◌++◌, arith}

-- A tool's error, as the model reads it.
tool_executor-error :
    {W : Type 0} (K : Sdk W) (name : Str) (args : Json) (c : McpToolClient W) (r : ToolResult)
    → c.session ≡ true
    → (K.session_call name args c.world).0 ≡ ok r
    → r.is_error ≡ true
    → (m : Str) × (tool_executor (call_tool K.session_call) name args c
        ≡ (ok (str "Error: " ++ m), record c { world = (K.session_call name args c.world).1 }))
unfolding tool_executor call_tool read_result
tool_executor-error K name args c r h e f =
    (text_or (first_text r.content) (name ++ str " failed"), ground arith)

module _ (S : Sqlglot) (D : Driver) (default_schema : Str) (b : Backend) (max_row_limit : ℤ) where
  abbrev C : WarehouseConnector
  C = connector_of S D default_schema b

  unsafe_error :
      {A : Type 0} (r : Result A) → IsUnsafe r → (m : Str) × (r ≡ err (unsafe_query_error m))
  unsafe_error (ok a) h = absurd h
  unsafe_error (err (unsafe_query_error m)) h = (m, refl)
  unsafe_error (err e) h = absurd h

  guarded-refused :
      (sql m : Str) (limit : ℤ) (b : Backend) (c : (connector_of S D default_schema b).Conn)
      → enforce_select_only S sql (connector_of S D default_schema b).dialect
        ≡ err (unsafe_query_error m)
      → (connector_of S D default_schema b).run_query sql limit c ≡ (err (unsafe_query_error m), c)
  unfolding Duckdb.run_query Snowflake.run_query Databricks.run_query
  guarded-refused sql m limit duckdb c e = ground arith
  guarded-refused sql m limit snowflake c e = ground arith
  guarded-refused sql m limit databricks c e = ground arith

  refused :
      (sql : Str) (limit : ℤ) (c : C.Conn)
      → RaisesParseErrors (S.parse sql C.dialect)
      → ((select : S.Select) → ¬ IsOneSelect S sql C.dialect select)
      → (m : Str) × (C.run_query sql limit c ≡ (err (unsafe_query_error m), c))
  refused sql limit c p h = elim (enforce_select_only-decides S sql C.dialect p) [
    | inl (select, e, one) ↦ absurd (h select one)
    | inr u ↦
        let (m, e) = unsafe_error (enforce_select_only S sql C.dialect) u in
        (m, guarded-refused sql m limit b c e)
  ]

  refused-call :
      (cell : Cell → Json) (t : Times) (sql m : Str) (row_limit : ℤ) (s : Server C.Conn)
      → C.run_query sql (min_ℤ row_limit max_row_limit) s.conn
        ≡ (err (unsafe_query_error m), s.conn)
      → ((call C max_row_limit s (query t sql row_limit)).conn ≡ s.conn)
        × (line_feeds (call C max_row_limit s (query t sql row_limit)).audit.file
            ≡ line_feeds s.audit.file + 1)
        × (tool_answer cell C max_row_limit s (query t sql row_limit) ≡ err (unsafe_query_error m))
  unfolding call run_query tool_answer
  refused-call cell t sql m row_limit s e = (
    ground arith,
    ground (
      arith,
      line_feeds-record_entry (failure t sql (min_ℤ row_limit max_row_limit) (unsafe_query_error m))
          s.audit,
    ),
    ground arith,
  )

  -- With any adapter, over an SDK that is as `Link` says, in an entered client, and if the parser
  -- returns or raises a `ParseError`: when the model calls a tool
  -- with what the SDK reads as a query that is not one SELECT and nothing else, the model is told of
  -- an error, the connection to the warehouse is as it was, and the audit log has one line more.
  pub tool_executor-refuses :
      {W : Type 0} (K : Sdk W) (L : Link (connector_of S D default_schema b) max_row_limit K)
      → (name : Str) (args : Json) (c : McpToolClient W) (t : Times) (sql : Str) (row_limit : ℤ)
      → c.session ≡ true
      → L.reads name args c.world ≡ some (query t sql row_limit)
      → RaisesParseErrors (S.parse sql (connector_of S D default_schema b).dialect)
      → ((select : S.Select)
          → ¬ IsOneSelect S sql (connector_of S D default_schema b).dialect select)
      → (m : Str) × ((tool_executor (call_tool K.session_call) name args c).0
          ≡ ok (str "Error: " ++ m))
        × ((L.server (tool_executor (call_tool K.session_call) name args c).1.world).conn
            ≡ (L.server c.world).conn)
        × (line_feeds
              (L.server (tool_executor (call_tool K.session_call) name args c).1.world).audit.file
            ≡ line_feeds (L.server c.world).audit.file + 1)
  tool_executor-refuses K L name args c t sql row_limit is_in reads p h =
      let (m, e) = refused sql (min_ℤ row_limit max_row_limit) (L.server c.world).conn p h in
      let (same, logged, raised) = refused-call L.cell t sql m row_limit (L.server c.world) e in
      let (r, answered, failed) =
        L.fails name args c.world (query t sql row_limit) (unsafe_query_error m) reads raised in
      let (told, q) = tool_executor-error K name args c r is_in answered failed in
      let after : L.server (tool_executor (call_tool K.session_call) name args c).1.world
          ≡ call C max_row_limit (L.server c.world) (query t sql row_limit) =
        ap (λ x. L.server x.1.world) q
        ∙ L.calls name args c.world
        ∙ ap (served C max_row_limit (L.server c.world)) reads in
      (
        told,
        ap (λ x. x.0) q,
        ap (λ s. s.conn) after ∙ same,
        ap (λ s. line_feeds s.audit.file) after ∙ logged,
      )
