-- ===== src/McpServer/Server.antt =====
-- mcp_server/server.py: the tools over any connector. A dictionary with fixed keys is the record of
-- its entries.
pub mod Audited
pub mod Replay
pub mod Bounds
pub mod Dicts
use open_warehouse_agent.Base.Int.{ℤ, min_ℤ}
use open_warehouse_agent.Connector.Protocol.{
  Cell, TableRef, TableSchema, QueryResult, WarehouseConnector,
}
use open_warehouse_agent.McpServer.Audit.{AuditRecord, AuditLog, record_entry}
use open_warehouse_agent.Py.Str.{Str}
use open_warehouse_agent.Py.Result.{
  Exc, value_error, unsafe_query_error, json_decode_error, message, Result, ok, err,
}
use open_warehouse_agent.Py.Exec.{Exec}
use open_warehouse_agent.Base.{
  ℕ, ◌-◌, ◌*◌, if◌then◌else◌, Bool, true, false, Option, none, some, List, [], ◌∷◌,
}

-- `except (UnsafeQueryError, ValueError)`, with the subclasses of `ValueError`.
abbrev pub is_audited : Exc → Bool
is_audited (value_error m) = true
is_audited (unsafe_query_error m) = true
is_audited (json_decode_error m) = true
is_audited e = false

-- The readings of the clocks in one call of `run_query`: the monotonic one before and after the
-- query, and the time of day, in ticks of a second.
pub record Times : Type 0 where
  pub start : ℕ
  pub finish : ℕ
  pub wall : ℕ

-- What `run_query` answers.
pub record QueryReply : Type 0 where
  pub columns : List Str
  pub rows : List (List Cell)
  pub row_count : ℕ
  pub truncated : Bool

abbrev pub failure : Times → Str → ℤ → Exc → AuditRecord
failure t sql limit e = record {
  timestamp = t.wall;
  sql = sql;
  row_limit = limit;
  success = false;
  row_count = none;
  error = some (message e);
  duration_ms = some ((t.finish - t.start) * 1000);
}

abbrev pub success_of : Times → Str → ℤ → QueryResult → AuditRecord
success_of t sql limit r = record {
  timestamp = t.wall;
  sql = sql;
  row_limit = limit;
  success = true;
  row_count = some r.row_count;
  error = none;
  duration_ms = some ((t.finish - t.start) * 1000);
}

abbrev pub reply_of : QueryResult → QueryReply
reply_of r = record {
  columns = r.columns;
  rows = r.rows;
  row_count = r.row_count;
  truncated = r.truncated;
}

-- The connection and the log that the tools of one server share.
pub record Server (Conn : Type 0) : Type 0 where
  pub conn : Conn
  pub audit : AuditLog

module _ (W : WarehouseConnector) (max_row_limit : ℤ) where
  abbrev on_connector : {A : Type 0} → Exec W.Conn A → Exec (Server W.Conn) A
  on_connector m s = let (r, c) = m s.conn in (r, record s { conn = c })

  abbrev log_entry : AuditRecord → Server W.Conn → Server W.Conn
  log_entry entry s = record s { audit = record_entry entry s.audit }

  unfoldable pub list_tables : Option Str → Exec (Server W.Conn) (List TableRef)
  list_tables schema = on_connector (W.list_tables schema)

  unfoldable pub describe_table : Str → Option Str → Exec (Server W.Conn) TableSchema
  describe_table table schema = on_connector (W.describe_table table schema)

  -- What `run_query` does after the connector's call, as it returned or raised.
  abbrev pub conclude : Times → Str → ℤ → Result QueryResult → Exec (Server W.Conn) QueryReply
  conclude t sql limit (err e) s =
      if is_audited e then (err e, log_entry (failure t sql limit e) s) else (err e, s)
  conclude t sql limit (ok r) s = (ok (reply_of r), log_entry (success_of t sql limit r) s)

  unfoldable pub run_query : Times → Str → ℤ → Exec (Server W.Conn) QueryReply
  run_query t sql row_limit s =
      let limit = min_ℤ row_limit max_row_limit in
      let (r, c) = W.run_query sql limit s.conn in conclude t sql limit r (record s { conn = c })

  -- A call of a tool by the client.
  pub data ToolCall : Type 0 where
    list : Option Str → ToolCall
    describe : Str → Option Str → ToolCall
    query : Times → Str → ℤ → ToolCall

  -- The server after a call: what a tool raises goes to the client, and the server goes on.
  unfoldable pub call : Server W.Conn → ToolCall → Server W.Conn
  call s (list schema) = (list_tables schema s).1
  call s (describe table schema) = (describe_table table schema s).1
  call s (query t sql row_limit) = (run_query t sql row_limit s).1

  unfoldable pub serve : Server W.Conn → List ToolCall → Server W.Conn
  serve s [] = s
  serve s (c ∷ cs) = serve (call s c) cs
