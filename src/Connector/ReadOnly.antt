-- ===== src/Connector/ReadOnly.antt =====
-- The adapters' operations over a warehouse whose data no SELECT changes.
use open_warehouse_agent.Base.Int.{ℤ}
use open_warehouse_agent.Connector.Protocol.{or_text, Driver, QueryResult}
use open_warehouse_agent.Connector.SqlGuard.{Sqlglot, enforce_select_only, apply_row_limit, clamp}
use open_warehouse_agent.Connector.Rows.{query_result, table_refs, table_schema}
use open_warehouse_agent.Connector.Contract.{Backend, duckdb, snowflake, databricks, connector_of}
use open_warehouse_agent.Connector.Duckdb
use open_warehouse_agent.Connector.Snowflake
use open_warehouse_agent.Connector.Databricks
use open_warehouse_agent.Py.Str.{Str, str}
use open_warehouse_agent.Py.Result.{Result, ok, err}
use open_warehouse_agent.Py.Exec.{Exec, continue-keeps, pure, lift, ◌>>=◌}
use open_warehouse_agent.Base.{◌≡◌, refl, Option, [], ◌∷◌}

-- The text of an adapter's query of the catalog, for the tables of a schema.
abbrev pub tables_sql : Backend → Str
tables_sql duckdb = Duckdb.tables_sql
tables_sql snowflake = Snowflake.tables_sql
tables_sql databricks = Databricks.tables_sql

-- The one for the columns of a table.
abbrev pub columns_sql : Backend → Str
columns_sql duckdb = Duckdb.columns_sql
columns_sql snowflake = Snowflake.columns_sql
columns_sql databricks = Databricks.columns_sql

abbrev dialect_of : Backend → Str
dialect_of duckdb = Duckdb.dialect
dialect_of snowflake = Snowflake.dialect
dialect_of databricks = Databricks.dialect

-- A warehouse of which `view` shows the data: it does not change when the warehouse runs a SELECT
-- that the SQL library renders, or a query of its catalog.
pub record KeepsData (S : Sqlglot) (D : Driver) (b : Backend) {V : Type 0} (view : D.Conn → V)
    : Type 0 where
  pub selects :
      (s : S.Select) (c : D.Conn) → view (D.execute (S.sql s (dialect_of b)) [] c).1 ≡ view c
  pub tables :
      (schema : Str) (c : D.Conn) → view (D.execute (tables_sql b) (schema ∷ []) c).1 ≡ view c
  pub columns :
      (schema table : Str) (c : D.Conn)
      → view (D.execute (columns_sql b) (schema ∷ table ∷ []) c).1 ≡ view c

module _ (S : Sqlglot) (D : Driver) (default_schema : Str) where
  -- The connection of the driver.
  abbrev pub conn_of : (b : Backend) → (connector_of S D default_schema b).Conn → D.Conn
  conn_of duckdb c = c
  conn_of snowflake c = c
  conn_of databricks c = c

  module _ {V : Type 0} (view : D.Conn → V) where
    -- An adapter's operation that leaves the data as they are.
    abbrev Reads : {A : Type 0} → Exec D.Conn A → Type 0
    Reads m = (c : D.Conn) → view (m c).1 ≡ view c

    Reads-lift :
        {A B : Type 0} (r : Result A) (f : A → Exec D.Conn B)
        → ((a : A) → Reads (f a))
        → Reads (lift r >>= f)
    Reads-lift (ok a) f h c = h a c
    Reads-lift (err e) f h c = refl

    Reads-then :
        {A B : Type 0} (m : Exec D.Conn A) (f : A → Result B)
        → Reads m
        → Reads (m >>= λ a. lift (f a))
    Reads-then m f h c = continue-keeps (λ d. view d ≡ view c) (m c) _ (h c) (λ a d k. k)

    Reads-guarded :
        (b : Backend) (sql : Str) (limit : ℤ)
        → KeepsData S D b view
        → Reads {A = QueryResult} (
            lift (enforce_select_only S sql (dialect_of b)) >>= λ select.
            (D.execute (apply_row_limit S select limit (dialect_of b)) [] >>= λ fetched.
            pure (query_result fetched limit)))
    Reads-guarded b sql limit K = Reads-lift (enforce_select_only S sql (dialect_of b)) _ λ select.
        Reads-then (D.execute (apply_row_limit S select limit (dialect_of b)) [])
          (λ fetched. ok (query_result fetched limit))
          (unfold apply_row_limit in K.selects (clamp S select limit))

    Reads-tables :
        (b : Backend) (schema : Str)
        → KeepsData S D b view
        → Reads
            (D.execute (tables_sql b) (schema ∷ []) >>= λ fetched. lift (table_refs fetched.rows))
    Reads-tables b schema K =
        Reads-then (D.execute (tables_sql b) (schema ∷ [])) (λ fetched. table_refs fetched.rows)
          (K.tables schema)

    Reads-columns :
        (b : Backend) (schema table : Str)
        → KeepsData S D b view
        → Reads (
            D.execute (columns_sql b) (schema ∷ table ∷ []) >>= λ fetched.
            lift (table_schema schema table fetched.rows))
    Reads-columns b schema table K =
        Reads-then (D.execute (columns_sql b) (schema ∷ table ∷ []))
          (λ fetched. table_schema schema table fetched.rows) (K.columns schema table)

    pub run_query-reads :
        (b : Backend) (sql : Str) (limit : ℤ) (c : (connector_of S D default_schema b).Conn)
        → KeepsData S D b view
        → view (conn_of b ((connector_of S D default_schema b).run_query sql limit c).1)
          ≡ view (conn_of b c)
    unfolding Duckdb.run_query Snowflake.run_query Databricks.run_query
    run_query-reads duckdb sql limit c K = Reads-guarded duckdb sql limit K c
    run_query-reads snowflake sql limit c K = Reads-guarded snowflake sql limit K c
    run_query-reads databricks sql limit c K = Reads-guarded databricks sql limit K c

    pub list_tables-reads :
        (b : Backend) (schema : Option Str) (c : (connector_of S D default_schema b).Conn)
        → KeepsData S D b view
        → view (conn_of b ((connector_of S D default_schema b).list_tables schema c).1)
          ≡ view (conn_of b c)
    unfolding Duckdb.list_tables Snowflake.list_tables Databricks.list_tables
    list_tables-reads duckdb schema c K = Reads-tables duckdb (or_text schema (str "main")) K c
    list_tables-reads snowflake schema c K =
        Reads-tables snowflake (or_text schema (str "PUBLIC")) K c
    list_tables-reads databricks schema c K =
        Reads-tables databricks (or_text schema default_schema) K c

    pub describe_table-reads :
        (b : Backend) (table : Str) (schema : Option Str)
        (c : (connector_of S D default_schema b).Conn)
        → KeepsData S D b view
        → view (conn_of b ((connector_of S D default_schema b).describe_table table schema c).1)
          ≡ view (conn_of b c)
    unfolding Duckdb.describe_table Snowflake.describe_table Databricks.describe_table
    describe_table-reads duckdb table schema c K =
        Reads-columns duckdb (or_text schema (str "main")) table K c
    describe_table-reads snowflake table schema c K =
        Reads-columns snowflake (or_text schema (str "PUBLIC")) table K c
    describe_table-reads databricks table schema c K =
        Reads-columns databricks (or_text schema default_schema) table K c
