-- ===== src/Infra/Tests.antt =====
-- The bootstrap script over an account that knows what its texts mean.
use open_warehouse_agent.Infra.Statements.{Admin}
use open_warehouse_agent.Infra.Account.{Account, Effect, perform_all, Does, Means}
use open_warehouse_agent.Infra.SnowflakeBootstrap
use open_warehouse_agent.Infra.SnowflakeBootstrap.Settings as SnowflakeSettings
use open_warehouse_agent.Infra.SnowflakeBootstrap.Grants.{
  meanings, provisioned, snowflake_bootstrap-provisioned,
}
use open_warehouse_agent.Infra.SnowflakeBootstrap.Key.{pem_of}
use open_warehouse_agent.Py.Env.{required, Env}
use open_warehouse_agent.Py.Str.{Str, str, str_eq, join}
use open_warehouse_agent.Py.Result.{ok, err, runtime_error}
use open_warehouse_agent.Py.Exec.{Exec}
use open_warehouse_agent.Base.{◌≡◌, refl, true, false, none, some, List, [], ◌∷◌, arith}

abbrev key_lines : List Str
key_lines = str "MIIBIjANBgkq" ∷ str "hkiG9w0B" ∷ []

abbrev carry_out : List Effect → Exec Account (Unit {0})
carry_out es a = elim (perform_all es a) [
  | none ↦ (err (runtime_error (str "not authorized")), a)
  | some b ↦ (ok tt, b)
]

carry_out-Does : (es : List Effect) → Does (λ a. a) (carry_out es) es
carry_out-Does es w b h = ground arith

-- What is not understood has no effect.
abbrev look_up : Str → List (Str × Effect) → List Effect
look_up s [] = []
look_up s ((t, e) ∷ rest) = elim (str_eq s t) [ true ↦ e ∷ [] | false ↦ look_up s rest ]

abbrev admin : Admin
admin = record {
  World = Account;
  execute = λ s. carry_out (look_up s (meanings (join [] key_lines)));
  print = λ s a. (ok tt, a);
  close = λ a. (ok tt, a);
}

admin-Means : Means admin (meanings (join [] key_lines))
unfolding join
admin-Means = record {
  view = λ a. a;
  executes = (
    carry_out-Does _,
    (
      carry_out-Does _,
      (
        carry_out-Does _,
        (
          carry_out-Does _,
          (
            carry_out-Does _,
            (
              carry_out-Does _,
              (
                carry_out-Does _,
                (
                  carry_out-Does _,
                  (
                    carry_out-Does _,
                    (carry_out-Does _, (carry_out-Does _, (carry_out-Does _, tt))),
                  ),
                ),
              ),
            ),
          ),
        ),
      ),
    ),
  );
  prints = λ s w. (refl, refl);
  closes = λ w. (refl, refl);
}

-- Every variable is set to "x".
abbrev all_set : Env
all_set name = some (str "x")

abbrev snowflake_kwargs : SnowflakeSettings.ConnectKwargs
snowflake_kwargs = record {
  account = str "x";
  user = str "x";
  role = str "ACCOUNTADMIN";
  warehouse = str "COMPUTE_WH";
  login = SnowflakeSettings.Login.password (str "x");
}

-- A user that is there with another key, and nothing else but the warehouse.
abbrev before : Account
before = record {
  warehouse = true;
  database = false;
  schema = false;
  role = false;
  user = true;
  uses_warehouse = false;
  uses_database = false;
  uses_schema = false;
  creates_tables = false;
  selects_future_tables = false;
  selects_tables = false;
  has_role = false;
  public_key = str "MIIBold";
}

snowflake_bootstrap-provisioned_example :
    ((SnowflakeBootstrap.main admin
        (ok (pem_of key_lines))
        all_set
        (λ kwargs a. (ok tt, a))
        before).0
      ≡ ok tt)
    × ((SnowflakeBootstrap.main admin
          (ok (pem_of key_lines))
          all_set
          (λ kwargs a. (ok tt, a))
          before).1
        ≡ provisioned (join [] key_lines))
unfolding SnowflakeSettings.settings required admin-Means
snowflake_bootstrap-provisioned_example =
    snowflake_bootstrap-provisioned admin key_lines admin-Means (ok (pem_of key_lines)) all_set
      snowflake_kwargs (λ kwargs a. (ok tt, a)) before (refl, (refl, tt)) (refl, (refl, tt)) refl
      refl refl
