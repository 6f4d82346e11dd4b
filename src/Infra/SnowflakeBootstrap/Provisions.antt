-- ===== src/Infra/SnowflakeBootstrap/Provisions.antt =====
-- What infra/snowflake_bootstrap.py executes.
use open_warehouse_agent.Infra.Statements.{
  Admin, announce, announce_all, IsRecording, Executed, Executes-then, announce-Executes,
  announce_all-Executes, then_print-Executes, try_finally-Executes,
}
use open_warehouse_agent.Infra.SnowflakeBootstrap.{
  statements, public_key_body, create_user_sql, alter_key_sql, grant_role_sql, provision, main,
}
use open_warehouse_agent.Infra.SnowflakeBootstrap.Settings.{ConnectKwargs, settings}
use open_warehouse_agent.Py.Env.{Env}
use open_warehouse_agent.Py.Str.{Str, strip}
use open_warehouse_agent.Py.Result.{Result, ok}
use open_warehouse_agent.Py.Exec.{Exec}
use open_warehouse_agent.Base.{◌≡◌, List, [], ◌∷◌, ◌++◌}

-- The nine statements of the list, and three for the user, with the key.
abbrev pub provisioning : Str → List Str
provisioning public_key =
    statements ++ (create_user_sql public_key ∷ alter_key_sql public_key ∷ grant_role_sql ∷ [])

module _ (D : Admin) (rec : IsRecording D) where
  provision-Executes :
      (public_key : Str) (w : D.World)
      → Executed D rec (provisioning public_key) w (provision D public_key w)
  unfolding provision
  provision-Executes public_key =
      Executes-then D rec (announce_all D statements) _ statements
        (create_user_sql public_key ∷ alter_key_sql public_key ∷ grant_role_sql ∷ [])
        (announce_all-Executes D rec statements)
        (Executes-then D rec
          (announce D (strip (create_user_sql public_key)) (create_user_sql public_key)) _
          (create_user_sql public_key ∷ []) (alter_key_sql public_key ∷ grant_role_sql ∷ [])
          (announce-Executes D rec _ _)
          (Executes-then D rec (announce D (alter_key_sql public_key) (alter_key_sql public_key)) _
            (alter_key_sql public_key ∷ []) (grant_role_sql ∷ []) (announce-Executes D rec _ _)
            (then_print-Executes D rec (announce D grant_role_sql grant_role_sql) _
              (grant_role_sql ∷ []) (announce-Executes D rec _ _))))

  -- With settings that are there, and a connection that is made: the script executes an initial
  -- piece of its twelve statements, in their order, the last three with the key of the file, and
  -- all of them if it returns.
  pub snowflake_bootstrap-Executed :
      (read_text : Result Str) (env : Env) (kwargs : ConnectKwargs) (pem : Str)
      → (connect : ConnectKwargs → Exec D.World (Unit {0})) (w : D.World)
      → settings read_text env ≡ ok (kwargs, pem)
      → (connect kwargs w).0 ≡ ok tt
      → Executed D rec
          (provisioning (public_key_body pem))
          (connect kwargs w).1
          (main D read_text env connect w)
  unfolding main
  snowflake_bootstrap-Executed read_text env kwargs pem connect w e c =
      rw (e, c)
        (try_finally-Executes D rec (provision D (public_key_body pem)) _
          (provision-Executes (public_key_body pem)) (connect kwargs w).1)
