-- ===== src/System/Answer.antt =====
-- A query that is answered, from the model's call to what the model is told.
use open_warehouse_agent.Py.Str.{Str}
use open_warehouse_agent.Py.Json.{Json}
