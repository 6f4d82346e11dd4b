-- ===== src/Connector/Tests.antt =====
-- Runs of the guard and the settings of the adapters at concrete inputs.
use open_warehouse_agent.Connector.SqlGuard.{LimitValue, enforce_select_only}
use open_warehouse_agent.Connector.SqlGuard.SelectOnly.{
  IsOneSelect, IsUnsafe, enforce_select_only-decides,
}
use open_warehouse_agent.Connector.Databricks.Settings as Databricks
use open_warehouse_agent.Connector.Databricks.Settings.Uses.{IsTokenOf, connect_kwargs-IsTokenOf}
use open_warehouse_agent.Connector.Snowflake.Settings as Snowflake
use open_warehouse_agent.Connector.Snowflake.Settings.Uses.{
  IsCredentialOf, connect_kwargs-IsCredentialOf,
}
use open_warehouse_agent.Py.Env.{Env, required, given_or}
use open_warehouse_agent.Py.Str.{Str, str, str_eq}
use open_warehouse_agent.Py.Result.{Result, ok, err, other}
use open_warehouse_agent.Base.{if◌then◌else◌, ◌≡◌, refl, ◌⊎◌, Option, none, some, List, [], ◌∷◌}
use open_warehouse_agent.Connector.Sample.{sqlglot, two_statements}

enforce_select_only-decides_example :
    ((s : Option LimitValue) × (enforce_select_only sqlglot two_statements (str "duckdb") ≡ ok s)
      × IsOneSelect sqlglot two_statements (str "duckdb") s)
    ⊎ IsUnsafe (enforce_select_only sqlglot two_statements (str "duckdb"))
enforce_select_only-decides_example =
    enforce_select_only-decides sqlglot two_statements (str "duckdb") tt

-- An environment with a client of the workspace, and one with a user's password.
abbrev settings_of : List (Str × Str) → Env
settings_of [] name = none
settings_of ((n, v) ∷ rest) name = if str_eq name n then some v else settings_of rest name

abbrev workspace : Env
workspace = settings_of (
    (str "DATABRICKS_SERVER_HOSTNAME", str "dbc.example")
    ∷ (str "DATABRICKS_HTTP_PATH", str "/sql/1")
    ∷ (str "DATABRICKS_CATALOG", str "main")
    ∷ (str "DATABRICKS_CLIENT_ID", str "agent")
    ∷ (str "DATABRICKS_CLIENT_SECRET", str "s3cret")
    ∷ [])

abbrev granting : Str → Str × Str → List (Str × Str) → Result (Option Str)
granting url client form = ok (some (str "t0ken"))

abbrev databricks_kwargs : Databricks.ConnectKwargs
databricks_kwargs = record {
  server_hostname = str "dbc.example";
  http_path = str "/sql/1";
  access_token = str "t0ken";
  catalog = str "main";
  schema = str "default";
}

connect_kwargs-IsTokenOf_example :
    (workspace (str "DATABRICKS_SERVER_HOSTNAME") ≡ some databricks_kwargs.server_hostname)
    × (workspace (str "DATABRICKS_HTTP_PATH") ≡ some databricks_kwargs.http_path)
    × (given_or none (required workspace (str "DATABRICKS_CATALOG")) ≡ ok databricks_kwargs.catalog)
    × IsTokenOf granting workspace databricks_kwargs.server_hostname
        (workspace (str "DATABRICKS_CLIENT_ID"))
        (workspace (str "DATABRICKS_CLIENT_SECRET"))
        databricks_kwargs.access_token
unfolding Databricks.connect_kwargs Databricks.access_token
connect_kwargs-IsTokenOf_example =
    connect_kwargs-IsTokenOf granting workspace none none databricks_kwargs refl

abbrev account : Env
account = settings_of (
    (str "SNOWFLAKE_ACCOUNT", str "acme")
    ∷ (str "SNOWFLAKE_USER", str "agent")
    ∷ (str "SNOWFLAKE_WAREHOUSE", str "wh")
    ∷ (str "SNOWFLAKE_PASSWORD", str "s3cret")
    ∷ [])

abbrev snowflake_kwargs : Snowflake.ConnectKwargs
snowflake_kwargs = record {
  account = str "acme";
  user = str "agent";
  warehouse = str "wh";
  database = str "shop";
  role = none;
  credential = Snowflake.password (str "s3cret");
}

abbrev no_file : Str → Result Str
no_file path = err (other (str "FileNotFoundError") path)

connect_kwargs-IsCredentialOf_example :
    (account (str "SNOWFLAKE_ACCOUNT") ≡ some snowflake_kwargs.account)
    × (account (str "SNOWFLAKE_USER") ≡ some snowflake_kwargs.user)
    × (account (str "SNOWFLAKE_WAREHOUSE") ≡ some snowflake_kwargs.warehouse)
    × (account (str "SNOWFLAKE_ROLE") ≡ snowflake_kwargs.role)
    × (given_or (some (str "shop")) (required account (str "SNOWFLAKE_DATABASE"))
        ≡ ok snowflake_kwargs.database)
    × IsCredentialOf no_file account
        (account (str "SNOWFLAKE_PRIVATE_KEY_PATH"))
        snowflake_kwargs.credential
unfolding Snowflake.connect_kwargs
connect_kwargs-IsCredentialOf_example =
    connect_kwargs-IsCredentialOf no_file account (some (str "shop")) snowflake_kwargs refl
