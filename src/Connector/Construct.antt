-- ===== src/Connector/Construct.antt =====
-- connector/*_adapter.py: the construction of each adapter, from the environment.
use open_warehouse_agent.Connector.Contract.{Backend, duckdb, snowflake, databricks}
use open_warehouse_agent.Connector.Duckdb
use open_warehouse_agent.Connector.Snowflake.Settings as SnowflakeSettings
use open_warehouse_agent.Connector.Databricks.Settings as DatabricksSettings
use open_warehouse_agent.Py.Env.{Env}
use open_warehouse_agent.Py.Str.{Str}
use open_warehouse_agent.Py.Result.{Result, ◌>>=◌}
use open_warehouse_agent.Base.{Bool, Option, none, List}

-- The functions of the drivers that connect, of what `__init__` gives them; `load` is
-- `_load_private_key`, and `post` is that of `_fetch_oauth_token`.
module _ {Conn : Type 0} (duckdb_connect : Str → Bool → Result Conn)
    (snowflake_connect : SnowflakeSettings.ConnectKwargs → Result Conn)
    (databricks_connect : DatabricksSettings.ConnectKwargs → Result Conn) (load : Str → Result Str)
    (post : Str → Str × Str → List (Str × Str) → Result (Option Str)) (env : Env) where
  -- `SnowflakeConnector()`
  unfoldable pub new_snowflake : Result Conn
  new_snowflake = SnowflakeSettings.connect_kwargs load env none >>= snowflake_connect

  -- `DatabricksConnector()`
  unfoldable pub new_databricks : Result Conn
  new_databricks = DatabricksSettings.connect_kwargs post env none none >>= databricks_connect

  -- The class that `build_connector` calls, with the path of the database for the first.
  abbrev pub construct : Backend → Str → Result Conn
  construct duckdb db_path = Duckdb.init duckdb_connect db_path
  construct snowflake db_path = new_snowflake
  construct databricks db_path = new_databricks
