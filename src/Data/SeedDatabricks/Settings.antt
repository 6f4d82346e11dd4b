-- ===== src/Data/SeedDatabricks/Settings.antt =====
-- data/seed_databricks.py: what `seed` connects with.
use open_warehouse_agent.Connector.Databricks.Settings
use open_warehouse_agent.Connector.Databricks.Settings.{ConnectKwargs}
use open_warehouse_agent.Py.Env.{Env, required}
use open_warehouse_agent.Py.Str.{Str, str}
use open_warehouse_agent.Py.Result.{Result, ok, ◌>>=◌}
use open_warehouse_agent.Base.{Option, List, or_default}

-- `post` is that of `_fetch_oauth_token`.
module _ (post : Str → Str × Str → List (Str × Str) → Result (Option Str)) (env : Env) where
  unfoldable pub connect_kwargs : Result ConnectKwargs
  unfolding required
  connect_kwargs = do
    hostname ← required env (str "DATABRICKS_SERVER_HOSTNAME")
    token ←
        Settings.access_token post env hostname (env (str "DATABRICKS_CLIENT_ID"))
          (env (str "DATABRICKS_CLIENT_SECRET"))
    http_path ← required env (str "DATABRICKS_HTTP_PATH")
    catalog ← required env (str "DATABRICKS_CATALOG")
    ok (record {
      server_hostname = hostname;
      http_path = http_path;
      access_token = token;
      catalog = catalog;
      schema = or_default (env (str "DATABRICKS_SCHEMA")) (str "default");
    })
