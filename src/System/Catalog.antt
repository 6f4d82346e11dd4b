-- ===== src/System/Catalog.antt =====
-- The start of a session: what the model is told of the warehouse before the first question.
use open_warehouse_agent.McpServer.Server.{Server}
use open_warehouse_agent.Py.Env.{Env}
use open_warehouse_agent.Py.Str.{Str}
use open_warehouse_agent.Py.Json.{Json}
use open_warehouse_agent.Py.Result.{Result}
