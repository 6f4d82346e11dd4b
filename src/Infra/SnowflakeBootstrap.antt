-- ===== src/Infra/SnowflakeBootstrap.antt =====
-- infra/snowflake_bootstrap.py: the database, the role and the user of the agent.
pub mod Key
pub mod Grants
pub mod Provisions
pub mod Settings
use open_warehouse_agent.Infra.SnowflakeBootstrap.Settings.{ConnectKwargs, settings}
use open_warehouse_agent.Infra.Statements.{Admin, announce, announce_all}
use open_warehouse_agent.Py.Env.{Env}
use open_warehouse_agent.Py.Str.{Str, str, strip, splitlines, occurs, join}
use open_warehouse_agent.Py.Result.{Result}
use open_warehouse_agent.Py.Exec.{Exec, lift, try_finally, ◌>>=◌, ◌>>◌}
use open_warehouse_agent.Base.{if◌then◌else◌, Bool, not, ◌&&◌, List, [], ◌∷◌, ◌++◌}

unfoldable pub statements : List Str
statements =
    str "CREATE DATABASE IF NOT EXISTS OWA_DEMO"
    ∷ str "CREATE SCHEMA IF NOT EXISTS OWA_DEMO.PUBLIC"
    ∷ str "CREATE ROLE IF NOT EXISTS OWA_APP_ROLE"
    ∷ str "GRANT USAGE ON WAREHOUSE COMPUTE_WH TO ROLE OWA_APP_ROLE"
    ∷ str "GRANT USAGE ON DATABASE OWA_DEMO TO ROLE OWA_APP_ROLE"
    ∷ str "GRANT USAGE ON SCHEMA OWA_DEMO.PUBLIC TO ROLE OWA_APP_ROLE"
    ∷ str "GRANT CREATE TABLE ON SCHEMA OWA_DEMO.PUBLIC TO ROLE OWA_APP_ROLE"
    ∷ str "GRANT SELECT ON FUTURE TABLES IN SCHEMA OWA_DEMO.PUBLIC TO ROLE OWA_APP_ROLE"
    ∷ str "GRANT SELECT ON ALL TABLES IN SCHEMA OWA_DEMO.PUBLIC TO ROLE OWA_APP_ROLE"
    ∷ []

-- `"BEGIN" not in line and "END" not in line`
abbrev pub is_body_line : Str → Bool
is_body_line line = not (occurs (str "BEGIN") line) && not (occurs (str "END") line)

abbrev pub body_lines : List Str → List Str
body_lines [] = []
body_lines (l ∷ ls) = if is_body_line l then l ∷ body_lines ls else body_lines ls

-- `_public_key_body`
unfoldable pub public_key_body : Str → Str
public_key_body pem = join [] (body_lines (splitlines (strip pem)))

unfoldable pub create_user_sql : Str → Str
create_user_sql public_key =
    str "\n            CREATE USER IF NOT EXISTS OWA_APP_USER\n"
    ++ str "                RSA_PUBLIC_KEY = '"
    ++ public_key
    ++ str "'\n"
    ++ str "                DEFAULT_ROLE = OWA_APP_ROLE\n"
    ++ str "                DEFAULT_WAREHOUSE = COMPUTE_WH\n"
    ++ str "                DEFAULT_NAMESPACE = OWA_DEMO.PUBLIC\n"
    ++ str "        "

unfoldable pub alter_key_sql : Str → Str
alter_key_sql public_key =
    str "ALTER USER OWA_APP_USER SET RSA_PUBLIC_KEY = '" ++ public_key ++ str "'"

unfoldable pub grant_role_sql : Str
grant_role_sql = str "GRANT ROLE OWA_APP_ROLE TO USER OWA_APP_USER"

module _ (D : Admin) where
  -- The body of the `try`.
  unfoldable pub provision : Str → Exec D.World (Unit {0})
  provision public_key = do
    announce_all D statements
    announce D (strip (create_user_sql public_key)) (create_user_sql public_key)
    announce D (alter_key_sql public_key) (alter_key_sql public_key)
    announce D grant_role_sql grant_role_sql
    D.print
        (str "\nProvisioned: database=OWA_DEMO schema=PUBLIC role=OWA_APP_ROLE user=OWA_APP_USER")

  unfoldable pub main :
      (read_text : Result Str)
      → Env
      → (ConnectKwargs → Exec D.World (Unit {0}))
      → Exec D.World (Unit {0})
  main read_text env connect = do
    kwargs ← lift (settings read_text env)
    connect kwargs.0
    try_finally (provision (public_key_body kwargs.1)) D.close
