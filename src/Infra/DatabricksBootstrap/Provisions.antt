-- ===== src/Infra/DatabricksBootstrap/Provisions.antt =====
-- What infra/databricks_bootstrap.py executes.
use open_warehouse_agent.Infra.Statements.{
  Admin, announce_all, IsRecording, Executed, announce_all-Executes, then_print-Executes,
  try_finally-Executes,
}
use open_warehouse_agent.Infra.DatabricksBootstrap.{statements, provision, main}
use open_warehouse_agent.Infra.DatabricksBootstrap.Settings.{Target, ConnectKwargs, settings}
use open_warehouse_agent.Py.Env.{Env}
use open_warehouse_agent.Py.Result.{ok}
use open_warehouse_agent.Py.Exec.{Exec}
use open_warehouse_agent.Base.{◌≡◌}

module _ (D : Admin) (rec : IsRecording D) where
  -- With settings that are there, and a connection that is made: the script executes an initial
  -- piece of its six statements, in their order, and all of them if it returns.
  pub databricks_bootstrap-Executed :
      (env : Env) (target : Target) (kwargs : ConnectKwargs)
      → (connect : ConnectKwargs → Exec D.World (Unit {0})) (w : D.World)
      → settings env ≡ ok (target, kwargs)
      → (connect kwargs w).0 ≡ ok tt
      → Executed D rec (statements target) (connect kwargs w).1 (main D env connect w)
  unfolding main provision
  databricks_bootstrap-Executed env target kwargs connect w e c =
      rw (e, c)
        (try_finally-Executes D rec (provision D target) _
          (then_print-Executes D rec (announce_all D (statements target)) _ (statements target)
            (announce_all-Executes D rec (statements target)))
          (connect kwargs w).1)
