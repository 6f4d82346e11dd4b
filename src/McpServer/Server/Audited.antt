-- ===== src/McpServer/Server/Audited.antt =====
-- Which calls the audit log shows.
use open_warehouse_agent.Base.Int.{ℤ, min_ℤ}
use open_warehouse_agent.Connector.Protocol.{QueryResult, WarehouseConnector}
use open_warehouse_agent.McpServer.Audit.{AuditRecord, line, record_entry}
use open_warehouse_agent.McpServer.Audit.Lines.{line_feeds, line_feeds-record_entry}
use open_warehouse_agent.McpServer.Server.{
  is_audited, Times, failure, success_of, Server, list_tables, describe_table, conclude, run_query,
  ToolCall, list, describe, query, call, serve,
}
use open_warehouse_agent.Py.Str.{Str}
use open_warehouse_agent.Py.Result.{Exc, Result, ok, err, is_ok}
use open_warehouse_agent.Base.{
  ℕ, ◌+◌, if◌then◌else◌, ◌≡◌, refl, Bool, true, false, Option, List, [], ◌∷◌, ◌++◌, arith,
}

module _ (W : WarehouseConnector) (max_row_limit : ℤ) where
  -- The answer of the connector to a query of the client.
  abbrev pub answer : Str → ℤ → W.Conn → Result QueryResult
  answer sql row_limit c = (W.run_query sql (min_ℤ row_limit max_row_limit) c).0

  -- A query that returned has a record, and so has one that was refused as unsafe or with another
  -- `ValueError`.
  abbrev pub shows : Result QueryResult → Bool
  shows (ok r) = true
  shows (err e) = is_audited e

  -- A query that raised anything else, an error of the database among others, is sent on to the
  -- warehouse and leaves no record.
  pub run_query-unaudited :
      (t : Times) (sql : Str) (row_limit : ℤ) (s : Server W.Conn) (e : Exc)
      → answer sql row_limit s.conn ≡ err e
      → is_audited e ≡ false
      → run_query W max_row_limit t sql row_limit s
        ≡ (err e, record s { conn = (W.run_query sql (min_ℤ row_limit max_row_limit) s.conn).1 })
  unfolding run_query
  run_query-unaudited t sql row_limit s e h f = ground arith

  -- How many calls of a history get a record.
  pub shown : Server W.Conn → List (ToolCall W max_row_limit) → ℕ
  shown s [] = 0
  shown s (list schema ∷ cs) = shown (call W max_row_limit s (list schema)) cs
  shown s (describe table schema ∷ cs) = shown (call W max_row_limit s (describe table schema)) cs
  shown s (query t sql row_limit ∷ cs) =
      (if shows (answer sql row_limit s.conn) then 1 else 0)
      + shown (call W max_row_limit s (query t sql row_limit)) cs

  conclude-line_feeds :
      (t : Times) (sql : Str) (limit : ℤ) (r : Result QueryResult) (s : Server W.Conn)
      → line_feeds (conclude W max_row_limit t sql limit r s).1.audit.file
        ≡ line_feeds s.audit.file + (if shows r then 1 else 0)
  conclude-line_feeds t sql limit (ok r) s =
      line_feeds-record_entry (success_of t sql limit r) s.audit
  conclude-line_feeds t sql limit (err e) s =
      ground (arith, line_feeds-record_entry (failure t sql limit e) s.audit)

  query-line_feeds :
      (s : Server W.Conn) (t : Times) (sql : Str) (row_limit : ℤ)
      → line_feeds (call W max_row_limit s (query t sql row_limit)).audit.file
        ≡ line_feeds s.audit.file + (if shows (answer sql row_limit s.conn) then 1 else 0)
  unfolding call run_query
  query-line_feeds s t sql row_limit =
      conclude-line_feeds t sql (min_ℤ row_limit max_row_limit) (answer sql row_limit s.conn)
        (record s { conn = (W.run_query sql (min_ℤ row_limit max_row_limit) s.conn).1 })

  list-line_feeds :
      (s : Server W.Conn) (schema : Option Str)
      → line_feeds (call W max_row_limit s (list schema)).audit.file ≡ line_feeds s.audit.file
  unfolding call list_tables
  list-line_feeds s schema = refl

  describe-line_feeds :
      (s : Server W.Conn) (table : Str) (schema : Option Str)
      → line_feeds (call W max_row_limit s (describe table schema)).audit.file
        ≡ line_feeds s.audit.file
  unfolding call describe_table
  describe-line_feeds s table schema = refl

  -- After any history of tool calls the audit file has as many lines more as there were queries
  -- that returned, were refused as unsafe or raised another `ValueError`: one line each, whatever
  -- the texts hold, and none for the other tools.
  pub serve-line_feeds :
      (cs : List (ToolCall W max_row_limit)) (s : Server W.Conn)
      → line_feeds (serve W max_row_limit s cs).audit.file ≡ line_feeds s.audit.file + shown s cs
  unfolding serve shown
  serve-line_feeds [] s = omega arith
  serve-line_feeds (list schema ∷ cs) s =
      omega (
        arith,
        list-line_feeds s schema,
        serve-line_feeds cs (call W max_row_limit s (list schema)),
      )
  serve-line_feeds (describe table schema ∷ cs) s = omega (
    arith,
    describe-line_feeds s table schema,
    serve-line_feeds cs (call W max_row_limit s (describe table schema)),
  )
  serve-line_feeds (query t sql row_limit ∷ cs) s = omega (
    arith,
    query-line_feeds s t sql row_limit,
    serve-line_feeds cs (call W max_row_limit s (query t sql row_limit)),
  )

  unfoldable pub entry_of : Times → Str → ℤ → Result QueryResult → AuditRecord
  entry_of t sql limit (ok r) = success_of t sql limit r
  entry_of t sql limit (err e) = failure t sql limit e

  -- The record of a query that has one is appended to the file as it was. It holds the client's
  -- text, the limit in force, which is the smaller of the client's and the server's, and whether
  -- the client got an answer.
  pub run_query-recorded :
      (t : Times) (sql : Str) (row_limit : ℤ) (s : Server W.Conn)
      → shows (answer sql row_limit s.conn) ≡ true
      → (entry : AuditRecord) × ((run_query W max_row_limit t sql row_limit s).1.audit.file
          ≡ s.audit.file ++ line entry)
        × (entry.sql ≡ sql)
        × (entry.row_limit ≡ min_ℤ row_limit max_row_limit)
        × (entry.success ≡ is_ok (run_query W max_row_limit t sql row_limit s).0)
  run_query-recorded t sql row_limit s h = (
    entry_of t sql (min_ℤ row_limit max_row_limit) (answer sql row_limit s.conn),
    unfold run_query record_entry entry_of in ground arith,
    unfold entry_of in ground arith,
    unfold entry_of in ground arith,
    unfold run_query entry_of in ground arith,
  )
