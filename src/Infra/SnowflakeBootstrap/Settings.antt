-- ===== src/Infra/SnowflakeBootstrap/Settings.antt =====
-- infra/snowflake_bootstrap.py: what `main` connects with, and the text of the public key.
use open_warehouse_agent.Py.Env.{Env, required}
use open_warehouse_agent.Py.Str.{Str, str, is_empty}
use open_warehouse_agent.Py.Result.{Result, ok, ◌>>=◌}
use open_warehouse_agent.Base.{if◌then◌else◌, Option, none, some}

-- How the administrator proves who they are.
pub data Login : Type 0 where
  password : Str → Login
  external_browser : Login

pub record ConnectKwargs : Type 0 where
  pub account : Str
  pub user : Str
  pub role : Str
  pub warehouse : Str
  pub login : Login

abbrev pub login_of : Option Str → Login
login_of none = external_browser
login_of (some p) = if is_empty p then external_browser else password p

-- What `main` reads first; `read_text` is that of the file of the public key.
unfoldable pub settings : Result Str → Env → Result (ConnectKwargs × Str)
settings read_text env = do
  account ← required env (str "SNOWFLAKE_ACCOUNT")
  admin_user ← required env (str "SNOWFLAKE_ADMIN_USER")
  pem ← read_text
  ok (
    record {
      account = account;
      user = admin_user;
      role = str "ACCOUNTADMIN";
      warehouse = str "COMPUTE_WH";
      login = login_of (env (str "SNOWFLAKE_ADMIN_PASSWORD"));
    },
    pem,
  )
