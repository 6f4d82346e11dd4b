-- ===== src/Data/SeedSnowflake/Settings.antt =====
-- data/seed_snowflake.py: what `seed` connects with.
use open_warehouse_agent.Connector.Snowflake.Settings.{Credential, credential_of}
use open_warehouse_agent.Py.Env.{Env, required}
use open_warehouse_agent.Py.Str.{Str, str}
use open_warehouse_agent.Py.Result.{Result, ok, ◌>>=◌}
use open_warehouse_agent.Base.{Option, or_default}

pub record ConnectKwargs : Type 0 where
  pub account : Str
  pub user : Str
  pub warehouse : Str
  pub database : Str
  pub schema : Str
  pub role : Option Str
  pub credential : Credential

-- `load` is `_load_private_key`.
module _ (load : Str → Result Str) (env : Env) where
  unfoldable pub connect_kwargs : Result ConnectKwargs
  unfolding required credential_of
  connect_kwargs = do
    account ← required env (str "SNOWFLAKE_ACCOUNT")
    user ← required env (str "SNOWFLAKE_USER")
    warehouse ← required env (str "SNOWFLAKE_WAREHOUSE")
    database ← required env (str "SNOWFLAKE_DATABASE")
    credential ← credential_of load env (env (str "SNOWFLAKE_PRIVATE_KEY_PATH"))
    ok (record {
      account = account;
      user = user;
      warehouse = warehouse;
      database = database;
      schema = or_default (env (str "SNOWFLAKE_SCHEMA")) (str "PUBLIC");
      role = env (str "SNOWFLAKE_ROLE");
      credential = credential;
    })
