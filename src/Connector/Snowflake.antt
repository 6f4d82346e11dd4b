-- ===== src/Connector/Snowflake.antt =====
-- connector/snowflake_adapter.py: the Snowflake adapter, and its connection settings.
pub mod Settings
use open_warehouse_agent.Base.Int.{ℤ}
use open_warehouse_agent.Connector.Protocol.{
  TableRef, TableSchema, QueryResult, WarehouseConnector, Driver, or_text,
}
use open_warehouse_agent.Connector.SqlGuard.{Sqlglot, enforce_select_only, apply_row_limit}
use open_warehouse_agent.Connector.Rows.{table_refs, table_schema, query_result}
use open_warehouse_agent.Py.Str.{Str, str}
use open_warehouse_agent.Py.Exec.{◌>>=◌, Exec, pure, lift}
use open_warehouse_agent.Base.{Option, List, [], ◌∷◌, ◌++◌}

abbrev pub dialect : Str
dialect = str "snowflake"

unfoldable pub tables_sql : Str
tables_sql =
    str "\n"
    ++ str "            select table_schema, table_name\n"
    ++ str "            from information_schema.tables\n"
    ++ str "            where table_schema = %s\n"
    ++ str "            order by table_name\n"
    ++ str "            "

unfoldable pub columns_sql : Str
columns_sql =
    str "\n"
    ++ str "            select column_name, data_type, is_nullable\n"
    ++ str "            from information_schema.columns\n"
    ++ str "            where table_schema = %s and table_name = %s\n"
    ++ str "            order by ordinal_position\n"
    ++ str "            "

module _ (S : Sqlglot) (D : Driver) where
  unfoldable pub list_tables : Option Str → Exec D.Conn (List TableRef)
  list_tables schema = do
    fetched ← D.execute tables_sql (or_text schema (str "PUBLIC") ∷ [])
    lift (table_refs fetched.rows)

  unfoldable pub describe_table : Str → Option Str → Exec D.Conn TableSchema
  describe_table table schema = do
    fetched ← D.execute columns_sql (or_text schema (str "PUBLIC") ∷ table ∷ [])
    lift (table_schema (or_text schema (str "PUBLIC")) table fetched.rows)

  unfoldable pub run_query : Str → ℤ → Exec D.Conn QueryResult
  run_query sql row_limit = do
    select ← lift (enforce_select_only S sql dialect)
    fetched ← D.execute (apply_row_limit S select row_limit dialect) []
    pure (query_result fetched row_limit)

  unfoldable pub close : Exec D.Conn (Unit {0})
  close = D.close

  -- The adapter as a `WarehouseConnector`.
  abbrev pub connector : WarehouseConnector
  connector = record {
    dialect = dialect;
    Conn = D.Conn;
    list_tables = list_tables;
    describe_table = describe_table;
    run_query = run_query;
  }
