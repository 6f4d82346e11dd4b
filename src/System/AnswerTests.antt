-- ===== src/System/AnswerTests.antt =====
-- A query over the sample of the connectors.
use open_warehouse_agent.Base.Int.{pos}
use open_warehouse_agent.Connector.Protocol.{Driver, WarehouseConnector}
use open_warehouse_agent.Connector.Contract.{connector_of, duckdb}
use open_warehouse_agent.Connector.Duckdb
use open_warehouse_agent.Connector.Sample.{sqlglot, driver, one_select}
use open_warehouse_agent.Connector.Protocol
use open_warehouse_agent.McpServer.Server.{QueryReply, ToolCall, query, Times}
use open_warehouse_agent.System.Sample.{World}
use open_warehouse_agent.Py.Str.{Str}
use open_warehouse_agent.Py.Json.{Json, object, end}
use open_warehouse_agent.Base.{true, Option, some, [], ◌∷◌}

abbrev a_time : Times
a_time = record { start = 2; finish = 3; wall = 5 }

abbrev no_arguments : Json
no_arguments = object end

-- One SELECT, of which three rows are asked for.
abbrev sampled : WarehouseConnector
sampled = connector_of sqlglot driver [] duckdb

abbrev reads_select : Str → Option (ToolCall sampled (pos 1000))
reads_select name = some (query a_time one_select (pos 3))

abbrev sample_start : World sampled reads_select
sample_start = (record { conn = 0; audit = record { file = [] } }, 0)

abbrev three_rows : QueryReply
three_rows = record {
  columns = [];
  rows = (Protocol.null ∷ []) ∷ (Protocol.null ∷ []) ∷ (Protocol.null ∷ []) ∷ [];
  row_count = 3;
  truncated = true;
}
