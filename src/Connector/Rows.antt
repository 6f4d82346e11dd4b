-- ===== src/Connector/Rows.antt =====
-- What the adapters make of fetched rows, in the same words in each of them.
use open_warehouse_agent.Base.Int.{ℤ, pos, leb_ℤ}
use open_warehouse_agent.Connector.Protocol.{
  Cell, ColumnInfo, TableRef, TableSchema, QueryResult, Fetched, at, is_yes,
}
use open_warehouse_agent.Py.Str.{Str, str}
use open_warehouse_agent.Py.Result.{◌>>=◌, value_error, Result, ok, err}
use open_warehouse_agent.Base.{List, [], ◌∷◌, ◌++◌, length}

-- `[TableRef(schema=row[0], name=row[1]) for row in rows]`
unfoldable pub table_refs : List (List Cell) → Result (List TableRef)
table_refs [] = ok []
table_refs (row ∷ rows) = do
  schema ← at row 0
  name ← at row 1
  rest ← table_refs rows
  ok (record { schema = schema; name = name } ∷ rest)

-- `[ColumnInfo(name=row[0], type=row[1], nullable=row[2] == "YES") for row in rows]`
unfoldable pub column_infos : List (List Cell) → Result (List ColumnInfo)
column_infos [] = ok []
column_infos (row ∷ rows) = do
  name ← at row 0
  type ← at row 1
  nullable ← at row 2
  rest ← column_infos rows
  ok (record { name = name; type = type; nullable = is_yes nullable } ∷ rest)

-- The end of `describe_table`, from `if not rows`.
unfoldable pub table_schema : Str → Str → List (List Cell) → Result TableSchema
unfolding column_infos
table_schema schema table [] =
    err (value_error (str "table not found: " ++ schema ++ str "." ++ table))
table_schema schema table (row ∷ rows) = do
  columns ← column_infos (row ∷ rows)
  ok (record { schema = schema; name = table; columns = columns })

-- The `QueryResult` of `run_query`.
unfoldable pub query_result : Fetched → ℤ → QueryResult
query_result fetched row_limit = record {
  columns = fetched.description;
  rows = fetched.rows;
  row_count = length fetched.rows;
  truncated = leb_ℤ row_limit (pos (length fetched.rows));
}
