-- ===== src/McpServer/Server/Dicts.antt =====
-- mcp_server/server.py: the dictionaries that the tools answer with, as JSON.
use open_warehouse_agent.Base.Int.{ℤ, pos}
use open_warehouse_agent.Connector.Protocol.{
  Cell, ColumnInfo, TableRef, TableSchema, WarehouseConnector,
}
use open_warehouse_agent.McpServer.Server.{
  QueryReply, Server, ToolCall, list, describe, query, list_tables, describe_table, run_query,
}
use open_warehouse_agent.Py.Str.{str}
use open_warehouse_agent.Py.Json.{
  Json, bool, int, text, array, object, Items, nil, cons, end, field,
}
use open_warehouse_agent.Py.Result.{Result, ok, err}
use open_warehouse_agent.Base.{List, [], ◌∷◌}

abbrev items : {A : Type 0} → (A → Json) → List A → Items
items f [] = nil
items f (x ∷ xs) = cons (f x) (items f xs)

-- `cell` is how a value of a row is written.
module _ (cell : Cell → Json) where
  abbrev table_dict : TableRef → Json
  table_dict ref =
      object (field (str "schema") (cell ref.schema) (field (str "name") (cell ref.name) end))

  abbrev column_dict : ColumnInfo → Json
  column_dict c = object (
      field (str "name") (cell c.name)
        (field (str "type") (cell c.type) (field (str "nullable") (bool c.nullable) end)))

  -- The answer of `list_tables`.
  unfoldable pub tables_json : List TableRef → Json
  tables_json refs = array (items table_dict refs)

  -- The answer of `describe_table`.
  unfoldable pub schema_json : TableSchema → Json
  schema_json s = object (
      field (str "schema") (text s.schema) (
        field (str "name") (text s.name)
          (field (str "columns") (array (items column_dict s.columns)) end)))

  -- The answer of `run_query`.
  unfoldable pub reply_json : QueryReply → Json
  reply_json r = object (
      field (str "columns") (array (items text r.columns)) (
        field (str "rows") (array (items (λ row. array (items cell row)) r.rows)) (
          field (str "row_count") (int (pos r.row_count))
            (field (str "truncated") (bool r.truncated) end))))

  abbrev mapped : {A : Type 0} → (A → Json) → Result A → Result Json
  mapped f (ok a) = ok (f a)
  mapped f (err e) = err e

  -- What the tool of a call answers.
  unfoldable pub tool_answer :
      (C : WarehouseConnector) (max_row_limit : ℤ)
      → Server C.Conn
      → ToolCall C max_row_limit
      → Result Json
  unfolding tables_json schema_json reply_json
  tool_answer C max s (list schema) = mapped tables_json (list_tables C max schema s).0
  tool_answer C max s (describe table schema) =
      mapped schema_json (describe_table C max table schema s).0
  tool_answer C max s (query t sql row_limit) =
      mapped reply_json (run_query C max t sql row_limit s).0
