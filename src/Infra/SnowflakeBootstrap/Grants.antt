-- ===== src/Infra/SnowflakeBootstrap/Grants.antt =====
-- What infra/snowflake_bootstrap.py leaves in the account.
use open_warehouse_agent.Infra.Account.{
  Account, Effect, create_database, create_schema, create_role, grant_warehouse, grant_database,
  grant_schema, grant_create, grant_future, grant_select, create_user, set_key, grant_role, perform,
  perform_all, Does, Does-then, Does-nothing, Means, effects, announce-Does, announce_all-Does,
  try_finally-Does,
}
use open_warehouse_agent.Infra.Statements.{Admin, announce, announce_all}
use open_warehouse_agent.Infra.SnowflakeBootstrap.{
  statements, is_body_line, public_key_body, create_user_sql, alter_key_sql, grant_role_sql,
  provision, main,
}
use open_warehouse_agent.Infra.SnowflakeBootstrap.Key.{pem_of, has_break, public_key_body-pem_of}
use open_warehouse_agent.Infra.SnowflakeBootstrap.Settings.{ConnectKwargs, settings}
use open_warehouse_agent.Py.Env.{Env}
use open_warehouse_agent.Py.Str.{Str, str, strip, join}
use open_warehouse_agent.Py.Result.{Result, ok}
use open_warehouse_agent.Py.Exec.{Exec, try_finally}
use open_warehouse_agent.Base.{◌≡◌, refl, sym, true, false, some, List, [], ◌∷◌, ◌++◌, All, subst}

-- The texts that the account understands, with a key.
abbrev pub setup_meanings : List (Str × Effect)
setup_meanings =
    (str "CREATE DATABASE IF NOT EXISTS OWA_DEMO", create_database)
    ∷ (str "CREATE SCHEMA IF NOT EXISTS OWA_DEMO.PUBLIC", create_schema)
    ∷ (str "CREATE ROLE IF NOT EXISTS OWA_APP_ROLE", create_role)
    ∷ (str "GRANT USAGE ON WAREHOUSE COMPUTE_WH TO ROLE OWA_APP_ROLE", grant_warehouse)
    ∷ (str "GRANT USAGE ON DATABASE OWA_DEMO TO ROLE OWA_APP_ROLE", grant_database)
    ∷ (str "GRANT USAGE ON SCHEMA OWA_DEMO.PUBLIC TO ROLE OWA_APP_ROLE", grant_schema)
    ∷ (str "GRANT CREATE TABLE ON SCHEMA OWA_DEMO.PUBLIC TO ROLE OWA_APP_ROLE", grant_create)
    ∷ (
      str "GRANT SELECT ON FUTURE TABLES IN SCHEMA OWA_DEMO.PUBLIC TO ROLE OWA_APP_ROLE",
      grant_future,
    )
    ∷ (
      str "GRANT SELECT ON ALL TABLES IN SCHEMA OWA_DEMO.PUBLIC TO ROLE OWA_APP_ROLE",
      grant_select,
    )
    ∷ []

abbrev pub user_meanings : Str → List (Str × Effect)
user_meanings key =
    (
      str "\n            CREATE USER IF NOT EXISTS OWA_APP_USER\n"
          ++ str "                RSA_PUBLIC_KEY = '"
          ++ key
          ++ str "'\n"
          ++ str "                DEFAULT_ROLE = OWA_APP_ROLE\n"
          ++ str "                DEFAULT_WAREHOUSE = COMPUTE_WH\n"
          ++ str "                DEFAULT_NAMESPACE = OWA_DEMO.PUBLIC\n"
          ++ str "        ",
      create_user key,
    )
    ∷ (str "ALTER USER OWA_APP_USER SET RSA_PUBLIC_KEY = '" ++ key ++ str "'", set_key key)
    ∷ (str "GRANT ROLE OWA_APP_ROLE TO USER OWA_APP_USER", grant_role)
    ∷ []

abbrev pub meanings : Str → List (Str × Effect)
meanings key = setup_meanings ++ user_meanings key

-- Everything is there and granted, and the user logs in by the key.
abbrev pub provisioned : Str → Account
provisioned key = record {
  warehouse = true;
  database = true;
  schema = true;
  role = true;
  user = true;
  uses_warehouse = true;
  uses_database = true;
  uses_schema = true;
  creates_tables = true;
  selects_future_tables = true;
  selects_tables = true;
  has_role = true;
  public_key = key;
}

perform_all-provisioned :
    (key : Str) (a : Account)
    → a.warehouse ≡ true
    → perform_all (effects setup_meanings ++ effects (user_meanings key)) a ≡ some (provisioned key)
unfolding perform_all perform
perform_all-provisioned key a h = rw h refl

module _ (D : Admin) (key : Str) (M : Means D (meanings key)) where
  provision-Does :
      Does M.view (provision D key) (effects setup_meanings ++ effects (user_meanings key))
  unfolding provision statements create_user_sql alter_key_sql grant_role_sql
  provision-Does =
      let (a, (b, (c, (d, (e, (f, (g, (h, (i, (u, (k, (r, _)))))))))))) = M.executes in
      Does-then M.view (announce_all D statements) _ (effects setup_meanings)
        (effects (user_meanings key))
        (announce_all-Does D (meanings key) M setup_meanings
          (a, (b, (c, (d, (e, (f, (g, (h, (i, tt))))))))))
        (Does-then M.view (announce D (strip (create_user_sql key)) (create_user_sql key)) _
          (create_user key ∷ []) (set_key key ∷ grant_role ∷ [])
          (announce-Does D (meanings key) M _ _ (create_user key) u)
          (Does-then M.view (announce D (alter_key_sql key) (alter_key_sql key)) _
            (set_key key ∷ []) (grant_role ∷ [])
            (announce-Does D (meanings key) M _ _ (set_key key) k)
            (Does-then M.view (announce D grant_role_sql grant_role_sql) _ (grant_role ∷ []) []
              (announce-Does D (meanings key) M _ _ grant_role r)
              (Does-nothing M.view _ (M.prints _)))))

module _ (D : Admin) (ls : List Str) (M : Means D (meanings (join [] ls))) where
  -- Given its settings, a key's file of lines with no line break and none of the words BEGIN and
  -- END in them, a connection, and an account that understands the texts and has the warehouse
  -- COMPUTE_WH: the script returns, whatever else was in the account before, and the database, the
  -- schema, the role and the user are then there, the role has every grant that the agent needs, the
  -- user has the role, and its key is that of the file, also if the user was there with another one.
  pub snowflake_bootstrap-provisioned :
      (read_text : Result Str) (env : Env) (kwargs : ConnectKwargs)
      → (connect : ConnectKwargs → Exec D.World (Unit {0})) (w : D.World)
      → All (λ l. has_break l ≡ false) ls
      → All (λ l. is_body_line l ≡ true) ls
      → settings read_text env ≡ ok (kwargs, pem_of ls)
      → (connect kwargs w).0 ≡ ok tt
      → (M.view (connect kwargs w).1).warehouse ≡ true
      → ((main D read_text env connect w).0 ≡ ok tt)
        × (M.view (main D read_text env connect w).1 ≡ provisioned (join [] ls))
  unfolding main
  snowflake_bootstrap-provisioned read_text env kwargs connect w whole body e c h =
      let done : ((try_finally (provision D (public_key_body (pem_of ls))) D.close
              (connect kwargs w).1).0
            ≡ ok tt)
          × (M.view
                (try_finally (provision D (public_key_body (pem_of ls))) D.close
                  (connect kwargs w).1).1
              ≡ provisioned (join [] ls)) =
        subst
          (λ key.
            ((try_finally (provision D key) D.close (connect kwargs w).1).0 ≡ ok tt)
            × (M.view (try_finally (provision D key) D.close (connect kwargs w).1).1
                ≡ provisioned (join [] ls)))
          (sym (public_key_body-pem_of ls whole body))
          (try_finally-Does D (meanings (join [] ls)) M (provision D (join [] ls)) _
            (provision-Does D (join [] ls) M) (connect kwargs w).1 (provisioned (join [] ls))
            (perform_all-provisioned (join [] ls) (M.view (connect kwargs w).1) h)) in
      rw (e, c) done
