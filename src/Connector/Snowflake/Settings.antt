-- ===== src/Connector/Snowflake/Settings.antt =====
-- connector/snowflake_adapter.py: `__init__`, up to the call of `snowflake.connector.connect`.
pub mod Uses
use open_warehouse_agent.Py.Env.{Env, required, given_or}
use open_warehouse_agent.Py.Str.{Str, str, is_empty}
use open_warehouse_agent.Py.Result.{◌>>=◌, Result, ok}
use open_warehouse_agent.Base.{if◌then◌else◌, Option, none, some}

-- What proves the user's identity: the bytes of a private key, or a password.
pub data Credential : Type 0 where
  private_key password : Str → Credential

pub record ConnectKwargs : Type 0 where
  pub account : Str
  pub user : Str
  pub warehouse : Str
  pub database : Str
  pub role : Option Str
  pub credential : Credential

-- `_load_private_key`, over the reading of a file and the library's two calls; the bytes are DER.
unfoldable pub load_private_key :
    {Key : Type 0} → (Str → Result Str) → (Str → Result Key) → (Key → Str) → Str → Result Str
load_private_key read load_pem_private_key private_bytes path = do
  pem ← read path
  key ← load_pem_private_key pem
  ok (private_bytes key)

-- `load` is `_load_private_key`.
module _ (load : Str → Result Str) (env : Env) where
  unfoldable pub credential_of : Option Str → Result Credential
  credential_of none = do p ← required env (str "SNOWFLAKE_PASSWORD"); ok (password p)
  credential_of (some path) =
      if is_empty path
      then (do p ← required env (str "SNOWFLAKE_PASSWORD"); ok (password p))
      else (do key ← load path; ok (private_key key))

  unfoldable pub connect_kwargs : Option Str → Result ConnectKwargs
  unfolding required credential_of
  connect_kwargs database = do
    database ← given_or database (required env (str "SNOWFLAKE_DATABASE"))
    account ← required env (str "SNOWFLAKE_ACCOUNT")
    user ← required env (str "SNOWFLAKE_USER")
    warehouse ← required env (str "SNOWFLAKE_WAREHOUSE")
    credential ← credential_of (env (str "SNOWFLAKE_PRIVATE_KEY_PATH"))
    ok (record {
      account = account;
      user = user;
      warehouse = warehouse;
      database = database;
      role = env (str "SNOWFLAKE_ROLE");
      credential = credential;
    })
