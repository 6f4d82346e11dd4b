-- ===== src/System/Tests.antt =====
-- Chats with a model that follows a script, over a small warehouse.
use open_warehouse_agent.Base.Int.{pos}
use open_warehouse_agent.Connector.Protocol.{Driver, WarehouseConnector}
use open_warehouse_agent.Connector.SqlGuard.{Sqlglot, enforce_select_only}
use open_warehouse_agent.Connector.SqlGuard.SelectOnly.{IsOneSelect}
use open_warehouse_agent.Connector.Contract.{connector_of, duckdb}
use open_warehouse_agent.Connector.ReadOnly.{KeepsData}
use open_warehouse_agent.Connector.Duckdb
use open_warehouse_agent.Connector.Sample.{sqlglot, render, two_statements}
use open_warehouse_agent.McpServer.Server.{run_query, ToolCall, list, query, Times}
use open_warehouse_agent.McpServer.Audit.Lines.{line_feeds}
use open_warehouse_agent.Agent.McpClient.{McpToolClient, call_tool}
use open_warehouse_agent.Agent.Cli.{tool_executor}
use open_warehouse_agent.Agent.Cli.Startup.{ask, amain}
use open_warehouse_agent.System.Sample.{World, sdk, link}
use open_warehouse_agent.System.Data.{amain-reads}
use open_warehouse_agent.System.Refusal.{tool_executor-refuses}
use open_warehouse_agent.Py.Str.{Str, str, str_eq}
use open_warehouse_agent.Py.Json.{Json, object, end}
use open_warehouse_agent.Py.Result.{Result, ok}
use open_warehouse_agent.Agent.Loop.{AgentResult, run_agent_loop}
use open_warehouse_agent.System.Shown.{Gets, ask-Gets}
use open_warehouse_agent.Agent.LlmClient.{chat_fn, read_calls}
use open_warehouse_agent.McpServer.Server.Dicts.{tool_answer}
use open_warehouse_agent.Py.Str.{strip}
use open_warehouse_agent.Base.{
  ℕ, ◌+◌, ◌==◌, if◌then◌else◌, ◌≡◌, refl, true, Option, none, some, [], ◌∷◌, ◌++◌, arith,
}

-- Every SELECT is rendered with an "s" before it.
abbrev sql_library : Sqlglot
sql_library = record sqlglot { sql = λ s dialect. b's' ∷ render s }

-- A warehouse of a number of rows, which a text that starts with "d" takes to 0, with the number of
-- the statements it was sent.
abbrev rows_after : Str → ℕ → ℕ
rows_after [] n = n
rows_after (c ∷ s) n = if c == b'd' then 0 else n

abbrev warehouse : Driver
warehouse = record {
  Conn = ℕ × ℕ;
  execute =
      λ sql ps c. (ok (record { rows = []; description = [] }), (rows_after sql c.0, c.1 + 1));
  close = λ c. (ok tt, c);
}

abbrev rows_of : ℕ × ℕ → ℕ
rows_of c = c.0

warehouse-KeepsData : KeepsData sql_library warehouse duckdb rows_of
unfolding Duckdb.tables_sql Duckdb.columns_sql
warehouse-KeepsData = record {
  selects = λ s c. refl;
  tables = λ schema c. refl;
  columns = λ schema table c. refl;
}

abbrev connector : WarehouseConnector
connector = connector_of sql_library warehouse [] duckdb

abbrev a_time : Times
a_time = record { start = 2; finish = 3; wall = 5 }

-- The two tools that the script uses, the second with its fixed text.
abbrev reads : Str → Option (ToolCall connector (pos 1000))
reads name =
    if str_eq name (str "list_tables")
    then some (list none)
    else if str_eq name (str "run_query")
    then some (query a_time two_statements (pos 5))
    else none

abbrev start : World connector reads
start = (record { conn = (7, 0); audit = record { file = [] } }, 0)

abbrev no_arguments : Json
no_arguments = object end

abbrev loads : Str → Result Json
loads s = ok no_arguments

amain-reads_example :
    (amain
      (λ j. [])
      (λ u. u)
      loads
      (λ name. none)
      (sdk connector reads)
      (str "drop it" ∷ [])
      start).world.world.0.conn.0
    ≡ 7
amain-reads_example =
    amain-reads sql_library warehouse [] duckdb (pos 1000) rows_of warehouse-KeepsData
      (sdk connector reads) (link connector reads) (λ j. []) (λ u. u) loads (λ name. none)
      (str "drop it" ∷ []) start

two_statements-refused :
    (s : sql_library.Select) → ¬ IsOneSelect sql_library two_statements connector.dialect s
two_statements-refused s h = ground arith

abbrev client : McpToolClient (World connector reads)
client = record { stack = true; session = true; world = start }

tool_executor-refuses_example :
    (m : Str) × ((tool_executor
        (call_tool (sdk connector reads).session_call)
        (str "run_query")
        no_arguments
        client).0
      ≡ ok (str "Error: " ++ m))
    × ((tool_executor
          (call_tool (sdk connector reads).session_call)
          (str "run_query")
          no_arguments
          client).1.world.0.conn
        ≡ (7, 0))
    × (line_feeds
          (tool_executor
            (call_tool (sdk connector reads).session_call)
            (str "run_query")
            no_arguments
            client).1.world.0.audit.file
        ≡ line_feeds [] + 1)
tool_executor-refuses_example =
    tool_executor-refuses sql_library warehouse [] duckdb (pos 1000) (sdk connector reads)
      (link connector reads) (str "run_query") no_arguments client a_time two_statements (pos 5)
      refl refl tt two_statements-refused

abbrev shown_answer : AgentResult
shown_answer = record {
  answer = str "done";
  tool_calls =
      record {
        name = str "run_query";
        arguments = no_arguments;
        result = str "Error: exactly one SQL statement is required";
      }
      ∷ [];
}

ask-Gets_example :
    Gets connector
      (pos 1000)
      (sdk connector reads)
      (link connector reads)
      shown_answer.tool_calls
      start.0
      (ask
        (λ j. [])
        (λ u. u)
        loads
        (λ name. none)
        (sdk connector reads)
        []
        (str "You answer.")
        (str "Drop it.")
        client).1.world.0
unfolding run_agent_loop chat_fn read_calls tool_executor call_tool tool_answer run_query
    Duckdb.run_query enforce_select_only strip
ask-Gets_example =
    ask-Gets connector (pos 1000) (sdk connector reads) (link connector reads) (λ j. []) (λ u. u)
      loads (λ name. none) [] (str "You answer.") (str "Drop it.") client shown_answer refl refl
