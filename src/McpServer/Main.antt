-- ===== src/McpServer/Main.antt =====
-- mcp_server/__main__.py: the server that is run, from the environment.
use open_warehouse_agent.McpServer.Backends.{build_connector, name_of}
use open_warehouse_agent.McpServer.Server.{Server}
use open_warehouse_agent.Connector.Contract.{Backend, duckdb}
use open_warehouse_agent.Py.Env.{Env}
use open_warehouse_agent.Py.Str.{Str, str}
use open_warehouse_agent.Py.Result.{Result, ok, ◌>>=◌}
use open_warehouse_agent.Base.{◌≡◌, Bool, true, [], or_default}

-- `installed`, `construct` and `repr` are those of `build_connector`; `open_log` makes the folder of
-- a path and gives the text that the file has, if any.
module _ {Conn : Type 0} (installed : Backend → Bool) (construct : Backend → Str → Result Conn)
    (repr : Str → Str) (open_log : Str → Result Str) (env : Env) where
  abbrev pub backend_name : Str
  backend_name = or_default (env (str "WAREHOUSE_BACKEND")) (str "duckdb")

  abbrev pub db_path : Str
  db_path = or_default (env (str "WAREHOUSE_DB_PATH")) (str "data/warehouse.duckdb")

  abbrev pub audit_path : Str
  audit_path = or_default (env (str "WAREHOUSE_AUDIT_PATH")) (str "data/audit.jsonl")

  -- Up to the call of `server.run`.
  unfoldable pub main : Result (Server Conn)
  main = do
    connector ← build_connector installed construct repr backend_name db_path
    file ← open_log audit_path
    ok (record { conn = connector; audit = record { file = file } })

  -- An adapter, made of the path of the database or of nothing, if its module is installed.
  abbrev pub IsBuilt : Backend → Str → Conn → Type 0
  IsBuilt duckdb path c = construct duckdb path ≡ ok c
  IsBuilt b path c = (installed b ≡ true) × (construct b [] ≡ ok c)

  -- The server that the environment asks for, by its variables.
  abbrev pub IsAskedFor : Server Conn → Type 0
  IsAskedFor s =
      (b : Backend) × (or_default (env (str "WAREHOUSE_BACKEND")) (str "duckdb") ≡ name_of b)
      × IsBuilt b (or_default (env (str "WAREHOUSE_DB_PATH")) (str "data/warehouse.duckdb")) s.conn
      × (open_log (or_default (env (str "WAREHOUSE_AUDIT_PATH")) (str "data/audit.jsonl"))
          ≡ ok s.audit.file)
