-- ===== src/Data/SeedTests.antt =====
-- The seed scripts, over a warehouse that holds another data set before.
use open_warehouse_agent.Data.Tests.{draws, draws-IsLawful, data_set}
use open_warehouse_agent.Data.Generator.{
  SyntheticDataset, generate_default, rate_in, generate, place_all, place, settle, order_of,
  order_day, products_from, product_of,
}
use open_warehouse_agent.Data.Database.{
  Row, Table, products_table, orders_table, settlements_table, Db, Step, insert, run, db_of,
  rows_of,
}
use open_warehouse_agent.Data.Database.Reads.{read_db}
use open_warehouse_agent.Data.Warehouse.{Warehouse, Runs, IsRelational}
use open_warehouse_agent.Data.SeedDuckdb
use open_warehouse_agent.Data.SeedDatabricks.{insert_text}
use open_warehouse_agent.Data.SeedDatabricks.Meanings as DatabricksMeanings
use open_warehouse_agent.Connector.Databricks.Settings as DatabricksSettings
use open_warehouse_agent.Data.Seeded.{IsDefault}
use open_warehouse_agent.Data.Seeded.Duckdb.{duckdb_meanings, insert_duckdb}
use open_warehouse_agent.Data.Seeded.Databricks.{insert_head, IsWarehouse, seed_databricks-fills}
use open_warehouse_agent.Data.SeedDatabricks
use open_warehouse_agent.Data.SeedDatabricks.Spelled.{SpellsRows}
use open_warehouse_agent.Py.Str.{Str, str, str_eq, is_empty, of_ℕ}
use open_warehouse_agent.Py.Result.{Result, ok, err, runtime_error}
use open_warehouse_agent.Py.Exec.{Exec}
use open_warehouse_agent.Base.{
  if◌then◌else◌, ◌≡◌, refl, true, false, none, some, List, [], ◌∷◌, ◌++◌, arith, take, All,
}

-- The data set of the seed scripts, from these draws.
abbrev or_empty : Result SyntheticDataset → SyntheticDataset
or_empty (ok d) = d
or_empty (err e) = record { products = []; orders = []; settlements = [] }

abbrev seeded : SyntheticDataset
seeded = or_empty (generate_default draws tt)

seeded-IsDefault : IsDefault draws tt seeded
unfolding generate_default generate place_all place settle order_of order_day products_from
    product_of rate_in
seeded-IsDefault = refl

seeded_some : is_empty seeded.settlements ≡ false
unfolding generate_default generate place_all place settle order_of order_day products_from
    product_of rate_in
seeded_some = refl

-- A warehouse that is its tables, and knows what some texts mean.
abbrev carry_out : List Step → Exec Db (Unit {0})
carry_out steps db = elim (run steps db) [
  | none ↦ (err (runtime_error (str "SQL error")), db)
  | some e ↦ (ok tt, e)
]

carry_out-Runs : (steps : List Step) → Runs (λ db. db) (carry_out steps) steps
carry_out-Runs steps w e h = ground arith

abbrev look_up : Str → List (Str × List Step) → List Step
look_up s [] = []
look_up s ((t, steps) ∷ rest) = elim (str_eq s t) [ true ↦ steps | false ↦ look_up s rest ]

abbrev knows : List (Str × List Step) → (Str → List Row → List Step) → Warehouse
knows texts many = record {
  World = Db;
  execute = λ s. carry_out (look_up s texts);
  executemany = λ s rows. carry_out (many s rows);
  close = λ db. (ok tt, db);
}

-- `executemany`, by the table that the text names.
abbrev inserting : Str → List Row → List Step
inserting s rows =
    if str_eq (take 20 s) (str "insert into products")
    then insert products_table rows ∷ []
    else if str_eq (take 18 s) (str "insert into orders")
    then insert orders_table rows ∷ []
    else insert settlements_table rows ∷ []

duckdb_statements :
    All (λ m. Runs (λ db. db) ((knows duckdb_meanings inserting).execute m.0) m.1) duckdb_meanings
unfolding SeedDuckdb.schema_sql
duckdb_statements =
    (carry_out-Runs _, (carry_out-Runs _, (carry_out-Runs _, (carry_out-Runs _, tt))))

duckdb_inserts :
    (t : Table)
    → is_empty (rows_of seeded t) ≡ false
    → Runs
        (λ db. db)
        (insert_duckdb (knows duckdb_meanings inserting) t (rows_of seeded t))
        (insert t (rows_of seeded t) ∷ [])
duckdb_inserts products_table h = carry_out-Runs _
duckdb_inserts orders_table h = carry_out-Runs _
duckdb_inserts settlements_table h = carry_out-Runs _

abbrev duckdb-IsRelational :
    IsRelational
      (knows duckdb_meanings inserting)
      duckdb_meanings
      seeded
      (insert_duckdb (knows duckdb_meanings inserting))
duckdb-IsRelational = record {
  view = λ db. db;
  statements = duckdb_statements;
  inserts = duckdb_inserts;
  closes = λ w. (refl, refl);
}

-- Statements by their texts, and an INSERT by the table that it names.
abbrev databricks_steps : Str → List Step
databricks_steps s =
    if str_eq (take 20 s) (str "insert into products")
    then insert products_table (rows_of seeded products_table) ∷ []
    else if str_eq (take 18 s) (str "insert into orders")
    then insert orders_table (rows_of seeded orders_table) ∷ []
    else if str_eq (take 23 s) (str "insert into settlements")
    then insert settlements_table (rows_of seeded settlements_table) ∷ []
    else look_up s DatabricksMeanings.meanings

abbrev databricks : Warehouse
databricks = record {
  World = Db;
  execute = λ s. carry_out (databricks_steps s);
  executemany = λ s rows. carry_out [];
  close = λ db. (ok tt, db);
}

databricks_inserts :
    (t : Table) (values : Str)
    → is_empty (rows_of seeded t) ≡ false
    → SpellsRows of_ℕ of_ℕ (rows_of seeded t) values
    → Runs
        (λ db. db)
        (databricks.execute (insert_head t ++ values))
        (insert t (rows_of seeded t) ∷ [])
databricks_inserts products_table values h spelled = carry_out-Runs _
databricks_inserts orders_table values h spelled = carry_out-Runs _
databricks_inserts settlements_table values h spelled = carry_out-Runs _

databricks_statements :
    All (λ m. Runs (λ db. db) (databricks.execute m.0) m.1) DatabricksMeanings.meanings
databricks_statements = (
  carry_out-Runs _,
  (
    carry_out-Runs _,
    (carry_out-Runs _, (carry_out-Runs _, (carry_out-Runs _, (carry_out-Runs _, tt)))),
  ),
)

abbrev databricks-IsWarehouse : IsWarehouse of_ℕ of_ℕ databricks seeded
databricks-IsWarehouse = record {
  view = λ db. db;
  statements = databricks_statements;
  inserts = databricks_inserts;
  closes = λ w. (refl, refl);
}

abbrev databricks_kwargs : DatabricksSettings.ConnectKwargs
databricks_kwargs = record {
  server_hostname = str "acme.cloud.databricks.com";
  http_path = str "/sql/1.0/warehouses/1";
  access_token = str "token";
  catalog = str "finance";
  schema = str "default";
}

seed_databricks-fills_example :
    ((SeedDatabricks.seed of_ℕ of_ℕ databricks draws tt
        (ok databricks_kwargs)
        (λ kwargs db. (ok tt, db))
        (db_of data_set)).0
      ≡ ok tt)
    × (read_db
          (SeedDatabricks.seed of_ℕ of_ℕ databricks draws tt
            (ok databricks_kwargs)
            (λ kwargs db. (ok tt, db))
            (db_of data_set)).1
        ≡ some seeded)
seed_databricks-fills_example =
    seed_databricks-fills draws draws-IsLawful tt seeded seeded-IsDefault seeded_some of_ℕ of_ℕ
      databricks databricks-IsWarehouse (ok databricks_kwargs) databricks_kwargs
      (λ kwargs db. (ok tt, db)) (db_of data_set) refl refl
