-- ===== src/McpServer/Server/Replay.antt =====
-- What the audit log of a server says about its past.
use open_warehouse_agent.Base.Int.{ℤ, min_ℤ}
use open_warehouse_agent.Connector.Protocol.{QueryResult, WarehouseConnector}
use open_warehouse_agent.McpServer.Audit.{AuditRecord, AuditLog}
use open_warehouse_agent.McpServer.Audit.Log.{IsReadable, record_all, read_log, read_log-record_all}
use open_warehouse_agent.McpServer.Server.{
  Times, Server, list_tables, describe_table, conclude, run_query, ToolCall, list, describe, query,
  call, serve,
}
use open_warehouse_agent.McpServer.Server.Audited.{answer}
use open_warehouse_agent.Py.Str.{Str}
use open_warehouse_agent.Py.Result.{
  value_error, unsafe_query_error, json_decode_error, Result, ok, err,
}
use open_warehouse_agent.Base.{
  ◌-◌, ◌*◌, ◌≡◌, refl, sym, ap, ◌∙◌, true, false, Option, none, some, List, [], ◌∷◌, length, All,
}

module _ (W : WarehouseConnector) (max_row_limit : ℤ) where
  -- The record of a query that was refused with a message.
  abbrev pub refused : Times → Str → ℤ → Str → Option AuditRecord
  refused t sql limit m = some (record {
    timestamp = t.wall;
    sql = sql;
    row_limit = limit;
    success = false;
    row_count = none;
    error = some m;
    duration_ms = some ((t.finish - t.start) * 1000);
  })

  -- The record that a query is to have, by the connector's answer: one of success with the number of
  -- rows, one of failure with the message of a `ValueError`, of which `JSONDecodeError` is one, or of
  -- an `UnsafeQueryError`, and none for another exception.
  abbrev pub recorded : Times → Str → ℤ → Result QueryResult → Option AuditRecord
  recorded t sql limit (ok r) = some (record {
    timestamp = t.wall;
    sql = sql;
    row_limit = limit;
    success = true;
    row_count = some r.row_count;
    error = none;
    duration_ms = some ((t.finish - t.start) * 1000);
  })
  recorded t sql limit (err (value_error m)) = refused t sql limit m
  recorded t sql limit (err (unsafe_query_error m)) = refused t sql limit m
  recorded t sql limit (err (json_decode_error m)) = refused t sql limit m
  recorded t sql limit (err e) = none

  -- The record of a query, if it has one, before those of the calls after it.
  abbrev noted : Times → Str → ℤ → Result QueryResult → List AuditRecord → List AuditRecord
  noted t sql limit r rest = elim (recorded t sql limit r) [
    | some entry ↦ entry ∷ rest
    | none ↦ rest
  ]

  -- The records of a history of calls.
  unfoldable pub records : Server W.Conn → List (ToolCall W max_row_limit) → List AuditRecord
  records s [] = []
  records s (list schema ∷ cs) = records (call W max_row_limit s (list schema)) cs
  records s (describe table schema ∷ cs) =
      records (call W max_row_limit s (describe table schema)) cs
  records s (query t sql row_limit ∷ cs) =
      let rest = records (call W max_row_limit s (query t sql row_limit)) cs in
      noted t sql (min_ℤ row_limit max_row_limit) (answer W max_row_limit sql row_limit s.conn) rest

  conclude-noted :
      (t : Times) (sql : Str) (limit : ℤ) (r : Result QueryResult) (s : Server W.Conn)
      → (rest : List AuditRecord)
      → record_all (noted t sql limit r rest) s.audit
        ≡ record_all rest (conclude W max_row_limit t sql limit r s).1.audit
  unfolding record_all
  conclude-noted t sql limit (ok r) s rest = refl
  conclude-noted t sql limit (err (value_error m)) s rest = refl
  conclude-noted t sql limit (err (unsafe_query_error m)) s rest = refl
  conclude-noted t sql limit (err (json_decode_error m)) s rest = refl
  conclude-noted t sql limit (err e) s rest = refl

  -- The log after a history of calls is the log before it with their records.
  pub serve-records :
      (cs : List (ToolCall W max_row_limit)) (s : Server W.Conn)
      → (serve W max_row_limit s cs).audit ≡ record_all (records s cs) s.audit
  unfolding serve records record_all call run_query list_tables describe_table
  serve-records [] s = refl
  serve-records (list schema ∷ cs) s = serve-records cs (call W max_row_limit s (list schema))
  serve-records (describe table schema ∷ cs) s =
      serve-records cs (call W max_row_limit s (describe table schema))
  serve-records (query t sql row_limit ∷ cs) s =
      serve-records cs (call W max_row_limit s (query t sql row_limit))
      ∙ sym (
          conclude-noted t sql (min_ℤ row_limit max_row_limit)
            (answer W max_row_limit sql row_limit s.conn)
            (record s { conn = (W.run_query sql (min_ℤ row_limit max_row_limit) s.conn).1 })
            (records (call W max_row_limit s (query t sql row_limit)) cs))

  -- After any history of tool calls of a server with a new log, the file of the log reads, line by
  -- line and by the rules of JSON, as a record of each query that returned, of success and with the
  -- number of its rows, or that raised an `UnsafeQueryError` or a `ValueError`, of failure and with the
  -- message, in their order and with the client's text, the limit in force and the times, if the texts in them are of code points other than surrogates.
  pub serve-read_log :
      (cs : List (ToolCall W max_row_limit)) (s : Server W.Conn)
      → s.audit ≡ record { file = [] }
      → All IsReadable (records s cs)
      → read_log
          (length (serve W max_row_limit s cs).audit.file)
          (serve W max_row_limit s cs).audit.file
        ≡ some (records s cs)
  serve-read_log cs s e h =
      ap (λ (log : AuditLog). read_log (length log.file) log.file)
        (serve-records cs s ∙ ap (record_all (records s cs)) e)
      ∙ read_log-record_all (records s cs) h
