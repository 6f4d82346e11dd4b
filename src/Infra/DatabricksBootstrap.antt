-- ===== src/Infra/DatabricksBootstrap.antt =====
-- infra/databricks_bootstrap.py: the catalog, the schema, and what the service principal may do.
pub mod Provisions
pub mod Settings
use open_warehouse_agent.Infra.DatabricksBootstrap.Settings.{Target, ConnectKwargs, settings}
use open_warehouse_agent.Infra.Statements.{Admin, announce_all}
use open_warehouse_agent.Py.Env.{Env}
use open_warehouse_agent.Py.Str.{Str, str}
use open_warehouse_agent.Py.Exec.{Exec, lift, try_finally, ◌>>=◌, ◌>>◌}
use open_warehouse_agent.Base.{List, [], ◌∷◌, ◌++◌}

unfoldable pub statements : Target → List Str
statements t =
    (str "CREATE CATALOG IF NOT EXISTS " ++ t.catalog)
    ∷ (str "CREATE SCHEMA IF NOT EXISTS " ++ t.catalog ++ str "." ++ t.schema)
    ∷ (str "GRANT USE CATALOG ON CATALOG " ++ t.catalog ++ str " TO `" ++ t.principal ++ str "`")
    ∷ (str "GRANT USE SCHEMA ON SCHEMA "
        ++ t.catalog
        ++ str "."
        ++ t.schema
        ++ str " TO `"
        ++ t.principal
        ++ str "`")
    ∷ (str "GRANT SELECT ON SCHEMA "
        ++ t.catalog
        ++ str "."
        ++ t.schema
        ++ str " TO `"
        ++ t.principal
        ++ str "`")
    ∷ (str "GRANT CREATE TABLE ON SCHEMA "
        ++ t.catalog
        ++ str "."
        ++ t.schema
        ++ str " TO `"
        ++ t.principal
        ++ str "`")
    ∷ []

abbrev provisioned : Target → Str
provisioned t =
    str "\nProvisioned: catalog="
    ++ t.catalog
    ++ str " schema="
    ++ t.schema
    ++ str " principal="
    ++ t.principal

module _ (D : Admin) where
  -- The body of the `try`.
  unfoldable pub provision : Target → Exec D.World (Unit {0})
  provision t = do announce_all D (statements t); D.print (provisioned t)

  unfoldable pub main : Env → (ConnectKwargs → Exec D.World (Unit {0})) → Exec D.World (Unit {0})
  main env connect = do
    kwargs ← lift (settings env)
    connect kwargs.1
    try_finally (provision kwargs.0) D.close
