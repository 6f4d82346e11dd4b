-- ===== src/System/Data.antt =====
-- A chat reads the warehouse and no more.
use open_warehouse_agent.Base.Int.{ℤ, min_ℤ}
use open_warehouse_agent.Connector.Protocol.{WarehouseConnector, Driver, QueryResult}
use open_warehouse_agent.Connector.SqlGuard.{Sqlglot}
use open_warehouse_agent.Connector.Contract.{Backend, connector_of}
use open_warehouse_agent.Connector.ReadOnly.{
  KeepsData, conn_of, run_query-reads, list_tables-reads, describe_table-reads,
}
use open_warehouse_agent.McpServer.Server.{
  Server, ToolCall, list, describe, query, call, list_tables, describe_table, run_query, conclude,
  Times,
}
use open_warehouse_agent.Agent.Cli.Startup.{Sdk, amain}
use open_warehouse_agent.Agent.Cli.Keeps.{amain-keeps}
use open_warehouse_agent.System.{Link}
use open_warehouse_agent.System.History.{kept_by_calls}
use open_warehouse_agent.Py.Env.{Env}
use open_warehouse_agent.Py.Str.{Str}
use open_warehouse_agent.Py.Json.{Json}
use open_warehouse_agent.Py.Result.{Result, ok, err}
use open_warehouse_agent.Base.{◌≡◌, refl, ap, ◌∙◌, List, arith}

module _ (S : Sqlglot) (D : Driver) (default_schema : Str) (b : Backend) (max_row_limit : ℤ)
    {V : Type 0} (view : D.Conn → V) (H : KeepsData S D b view) where
  abbrev C : WarehouseConnector
  C = connector_of S D default_schema b

  abbrev data_of : Server C.Conn → V
  data_of s = view (conn_of S D default_schema b s.conn)

  conclude-conn :
      (t : Times) (sql : Str) (limit : ℤ) (r : Result QueryResult) (s : Server C.Conn)
      → (conclude C max_row_limit t sql limit r s).1.conn ≡ s.conn
  conclude-conn t sql limit (ok r) s = refl
  conclude-conn t sql limit (err e) s = ground arith

  call-data :
      (s : Server C.Conn) (c : ToolCall C max_row_limit)
      → data_of (call C max_row_limit s c) ≡ data_of s
  unfolding call list_tables describe_table run_query
  call-data s (list schema) = list_tables-reads S D default_schema view b schema s.conn H
  call-data s (describe table schema) =
      describe_table-reads S D default_schema view b table schema s.conn H
  call-data s (query t sql row_limit) =
      ap (λ c. view (conn_of S D default_schema b c))
        (conclude-conn t sql (min_ℤ row_limit max_row_limit)
          (C.run_query sql (min_ℤ row_limit max_row_limit) s.conn).0
          (record s { conn = (C.run_query sql (min_ℤ row_limit max_row_limit) s.conn).1 }))
      ∙ run_query-reads S D default_schema view b sql (min_ℤ row_limit max_row_limit) s.conn H

  -- With any adapter, over an SDK that is as `Link` says and a warehouse whose data no rendered SELECT and no query of the catalog
  -- changes: however a chat goes, whatever is typed and whatever the model asks of the tools, the
  -- data at its end are those at its start.
  pub amain-reads :
      {W : Type 0} (K : Sdk W) (L : Link (connector_of S D default_schema b) max_row_limit K)
      → (show : Json → Str) (show_url : Str → Str) (loads : Str → Result Json) (env : Env)
      → (inputs : List Str) (w : W)
      → view (
          conn_of S D default_schema b
            (L.server (amain show show_url loads env K inputs w).world.world).conn)
        ≡ view (conn_of S D default_schema b (L.server w).conn)
  amain-reads K L show show_url loads env inputs w =
      amain-keeps show show_url loads env K (λ v. data_of (L.server v) ≡ data_of (L.server w))
        (kept_by_calls C max_row_limit K L (λ s. data_of s ≡ data_of (L.server w))
          (λ s c e. call-data s c ∙ e))
        inputs w refl
