-- ===== src/McpServer/Backends.antt =====
-- mcp_server/backends.py and __main__.py: the choice of a connector by its name.
use open_warehouse_agent.Connector.Contract.{Backend, duckdb, snowflake, databricks}
use open_warehouse_agent.Py.Str.{Str, str, str_eq}
use open_warehouse_agent.Py.Str.{join, str_eq_iff}
use open_warehouse_agent.Py.Result.{Exc, import_error, runtime_error, value_error, Result, err}
use open_warehouse_agent.Base.{
  if◌then◌else◌, ◌≡◌, ◌≢◌, ◌⊎◌, inl, inr, Bool, false, List, [], ◌∷◌, ◌++◌, arith, Bool-cases,
}

abbrev pub supported_backends : List Str
supported_backends = str "duckdb" ∷ str "snowflake" ∷ str "databricks" ∷ []

-- The names of the adapters.
abbrev pub name_of : Backend → Str
name_of duckdb = str "duckdb"
name_of snowflake = str "snowflake"
name_of databricks = str "databricks"

abbrev snowflake_missing : Exc
snowflake_missing = runtime_error (
    str "the snowflake backend requires the optional `snowflake` "
    ++ str "extra — run `uv sync --extra snowflake` and set "
    ++ str "SNOWFLAKE_ACCOUNT/USER/PASSWORD/WAREHOUSE/DATABASE")

abbrev databricks_missing : Exc
databricks_missing = runtime_error (
    str "the databricks backend requires the optional `databricks` "
    ++ str "extra — run `uv sync --extra databricks` and set "
    ++ str "DATABRICKS_SERVER_HOSTNAME/HTTP_PATH/CATALOG plus either "
    ++ str "CLIENT_ID+CLIENT_SECRET or TOKEN")

-- What an adapter whose import fails is refused with; the first is always there.
abbrev pub missing : Backend → Exc
missing duckdb = import_error []
missing snowflake = snowflake_missing
missing databricks = databricks_missing

not_named :
    (s : Str)
    → str_eq s (str "duckdb") ≡ false
    → str_eq s (str "snowflake") ≡ false
    → str_eq s (str "databricks") ≡ false
    → (b : Backend) → s ≢ name_of b
not_named s x y z duckdb e = ground (arith, str_eq_iff s (str "duckdb"))
not_named s x y z snowflake e = ground (arith, str_eq_iff s (str "snowflake"))
not_named s x y z databricks e = ground (arith, str_eq_iff s (str "databricks"))

-- `installed` says whether the module of an adapter can be imported, `construct` calls its class,
-- with the path of the database for the first, and `repr` is Python's.
module _ {Handle : Type 0} (installed : Backend → Bool) (construct : Backend → Str → Result Handle)
    (repr : Str → Str) where
  unfoldable pub build_connector : Str → Str → Result Handle
  build_connector backend db_path =
      if str_eq backend (str "duckdb")
      then construct duckdb db_path
      else if str_eq backend (str "snowflake")
      then (if installed snowflake then construct snowflake [] else err (missing snowflake))
      else if str_eq backend (str "databricks")
      then (if installed databricks then construct databricks [] else err (missing databricks))
      else err (
          value_error (
            str "unknown backend "
            ++ repr backend
            ++ str " — supported backends: "
            ++ join (str ", ") supported_backends))

  -- The construction of the named adapter.
  abbrev pub built : Backend → Str → Result Handle
  built duckdb path = construct duckdb path
  built b path = if installed b then construct b [] else err (missing b)

  -- Every supported name builds its own adapter, or is refused for a missing extra; every other
  -- name is refused with the list of the names that are supported.
  pub build_connector-decides :
      (backend db_path : Str)
      → ((b : Backend) × (backend ≡ name_of b)
          × (build_connector backend db_path ≡ built b db_path))
        ⊎ (((b : Backend) → backend ≢ name_of b)
            × (build_connector backend db_path
                ≡ err (
                    value_error (
                      str "unknown backend "
                      ++ repr backend
                      ++ str " — supported backends: "
                      ++ str "duckdb, snowflake, databricks"))))
  unfolding build_connector join
  build_connector-decides backend db_path = elim (Bool-cases (str_eq backend (str "duckdb"))) [
    | inl e ↦ inl (duckdb, (str_eq_iff backend (str "duckdb")).0 e, ground arith)
    | inr n ↦ elim (Bool-cases (str_eq backend (str "snowflake"))) [
      | inl e ↦ inl (snowflake, (str_eq_iff backend (str "snowflake")).0 e, ground arith)
      | inr m ↦ elim (Bool-cases (str_eq backend (str "databricks"))) [
        | inl e ↦ inl (databricks, (str_eq_iff backend (str "databricks")).0 e, ground arith)
        | inr k ↦ inr (not_named backend n m k, ground arith)
      ]
    ]
  ]
