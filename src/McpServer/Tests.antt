-- ===== src/McpServer/Tests.antt =====
-- Runs of the server over the adapters and the warehouse of Connector/Sample.
use open_warehouse_agent.Py.Env.{Env}
use open_warehouse_agent.Base.Int.{pos}
use open_warehouse_agent.Connector.Protocol.{WarehouseConnector}
use open_warehouse_agent.Connector.SqlGuard.{enforce_select_only, clamp, apply_row_limit}
use open_warehouse_agent.Connector.Rows.{query_result}
use open_warehouse_agent.Connector.Sample.{
  sqlglot, driver, five_rows, two_statements, one_select, sqlglot-IsLawful, driver-RespectsLimits,
  one_select-IsOneSelect,
}
use open_warehouse_agent.Connector.Duckdb
use open_warehouse_agent.Connector.Contract.{Backend, duckdb, connector_of}
use open_warehouse_agent.McpServer.Audit.{AuditRecord, record_entry}
use open_warehouse_agent.McpServer.Audit.Lines.{line_feeds, line_feeds-record_entry}
use open_warehouse_agent.McpServer.Server.Replay.{records, serve-read_log}
use open_warehouse_agent.McpServer.Server.{
  list_tables, describe_table, call, Times, QueryReply, Server, run_query, ToolCall, list, describe,
  query, serve, failure,
}
use open_warehouse_agent.McpServer.Server.Bounds.{run_query-bounded_reply}
use open_warehouse_agent.Py.Str.{Str, str, of_ℕ}
use open_warehouse_agent.Py.Json.{of_ℤ}
use open_warehouse_agent.Py.Number.{parse_int}
use open_warehouse_agent.Py.Result.{value_error, Result, ok}
use open_warehouse_agent.McpServer.Audit.Log.{read_log}
use open_warehouse_agent.Base.{
  ℕ, ◌+◌, ◌≤◌, ◌≡◌, refl, inl, Bool, true, false, none, some, List, [], ◌∷◌, arith, length, take,
}

abbrev times : Times
times = record { start = 2; finish = 3; wall = 1000 }

abbrev duck : WarehouseConnector
duck = connector_of sqlglot driver (str "main") duckdb

abbrev fresh : Server ℕ
fresh = record { conn = 0; audit = record { file = [] } }

abbrev calls : List (ToolCall duck (pos 1000))
calls =
    list none
    ∷ query times one_select (pos 3)
    ∷ query times two_statements (pos 3)
    ∷ describe (str "orders") none
    ∷ []

abbrev two_rows : QueryReply
two_rows = record { columns = []; rows = take 2 five_rows; row_count = 2; truncated = true }

run_query-bounded_reply_example :
    (length two_rows.rows ≤ 4)
    × (length two_rows.rows ≤ 2)
    × (two_rows.row_count ≡ length two_rows.rows)
unfolding run_query Duckdb.run_query enforce_select_only apply_row_limit clamp query_result
    parse_int of_ℤ of_ℕ
run_query-bounded_reply_example =
    run_query-bounded_reply sqlglot driver (str "main") duckdb times one_select 4 2 fresh none
      two_rows sqlglot-IsLawful (driver-RespectsLimits (str "duckdb"))
      (one_select-IsOneSelect (str "duckdb")) (inl refl) refl

-- A record of a query with a line break in it.
abbrev entry_of_lines : AuditRecord
entry_of_lines = failure times (str "select 1\n{}") (pos 3) (value_error (str "no"))

line_feeds-record_entry_example :
    line_feeds (record_entry entry_of_lines (record { file = str "{}\n" })).file
    ≡ line_feeds (str "{}\n") + 1
line_feeds-record_entry_example =
    line_feeds-record_entry entry_of_lines (record { file = str "{}\n" })

abbrev installed : Backend → Bool
installed duckdb = true
installed b = false

abbrev construct : Backend → Str → Result Str
construct b path = ok path

abbrev no_env : Env
no_env name = none

abbrev by_default : Server Str
by_default = record { conn = str "data/warehouse.duckdb"; audit = record { file = str "{}\n" } }

serve-read_log_example :
    read_log
      (length (serve duck (pos 1000) fresh calls).audit.file)
      (serve duck (pos 1000) fresh calls).audit.file
    ≡ some (records duck (pos 1000) fresh calls)
unfolding records call run_query list_tables describe_table Duckdb.run_query enforce_select_only
serve-read_log_example = serve-read_log duck (pos 1000) calls fresh refl (ground arith)
