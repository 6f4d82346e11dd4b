-- ===== src/Infra/DatabricksBootstrap/Settings.antt =====
-- infra/databricks_bootstrap.py: what `main` reads from the environment.
use open_warehouse_agent.Py.Env.{Env, required}
use open_warehouse_agent.Py.Str.{Str, str}
use open_warehouse_agent.Py.Result.{Result, ok, ◌>>=◌}
use open_warehouse_agent.Base.{or_default}

-- What is provisioned, and for whom.
pub record Target : Type 0 where
  pub catalog : Str
  pub schema : Str
  pub principal : Str

pub record ConnectKwargs : Type 0 where
  pub server_hostname : Str
  pub http_path : Str
  pub access_token : Str

unfoldable pub settings : Env → Result (Target × ConnectKwargs)
settings env = do
  catalog ← required env (str "DATABRICKS_CATALOG")
  principal ← required env (str "DATABRICKS_CLIENT_ID")
  server_hostname ← required env (str "DATABRICKS_SERVER_HOSTNAME")
  http_path ← required env (str "DATABRICKS_HTTP_PATH")
  access_token ← required env (str "DATABRICKS_ADMIN_TOKEN")
  ok (
    record {
      catalog = catalog;
      schema = or_default (env (str "DATABRICKS_SCHEMA")) (str "default");
      principal = principal;
    },
    record {
      server_hostname = server_hostname;
      http_path = http_path;
      access_token = access_token;
    },
  )
