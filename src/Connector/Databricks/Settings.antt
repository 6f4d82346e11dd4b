-- ===== src/Connector/Databricks/Settings.antt =====
-- connector/databricks_adapter.py: `__init__`, up to the call of `sql.connect`.
pub mod Uses
use open_warehouse_agent.Py.Env.{Env, required, given_or}
use open_warehouse_agent.Py.Str.{Str, str, is_empty}
use open_warehouse_agent.Py.Result.{◌>>=◌, Result, ok, err, key_error}
use open_warehouse_agent.Base.{
  if◌then◌else◌, not, ◌&&◌, Option, none, some, List, [], ◌∷◌, ◌++◌, or_default,
}

pub record ConnectKwargs : Type 0 where
  pub server_hostname : Str
  pub http_path : Str
  pub access_token : Str
  pub catalog : Str
  pub schema : Str

-- `post` is the answer's `access_token`, if it has one, after `raise_for_status`: of a URL, the pair
-- of the client id and its secret, and a form.
module _ (post : Str → Str × Str → List (Str × Str) → Result (Option Str)) (env : Env) where
  abbrev access_token_of : Option Str → Result Str
  access_token_of none = err (key_error (str "'access_token'"))
  access_token_of (some t) = ok t

  unfoldable pub fetch_oauth_token : Str → Str → Str → Result Str
  fetch_oauth_token hostname client_id client_secret = do
    token ←
        post (str "https://" ++ hostname ++ str "/oidc/v1/token") (client_id, client_secret)
          ((str "grant_type", str "client_credentials") ∷ (str "scope", str "all-apis") ∷ [])
    access_token_of token

  -- `if client_id and client_secret`
  unfoldable pub access_token : Str → Option Str → Option Str → Result Str
  unfolding fetch_oauth_token
  access_token hostname (some client_id) (some client_secret) =
      if not (is_empty client_id) && not (is_empty client_secret)
      then fetch_oauth_token hostname client_id client_secret
      else required env (str "DATABRICKS_TOKEN")
  access_token hostname _ _ = required env (str "DATABRICKS_TOKEN")

  unfoldable pub connect_kwargs : Option Str → Option Str → Result ConnectKwargs
  unfolding required
  connect_kwargs catalog schema = do
    catalog ← given_or catalog (required env (str "DATABRICKS_CATALOG"))
    schema ← given_or schema (ok (or_default (env (str "DATABRICKS_SCHEMA")) (str "default")))
    hostname ← required env (str "DATABRICKS_SERVER_HOSTNAME")
    token ←
        access_token hostname (env (str "DATABRICKS_CLIENT_ID"))
          (env (str "DATABRICKS_CLIENT_SECRET"))
    http_path ← required env (str "DATABRICKS_HTTP_PATH")
    ok (record {
      server_hostname = hostname;
      http_path = http_path;
      access_token = token;
      catalog = catalog;
      schema = schema;
    })
