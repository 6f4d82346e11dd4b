-- ===== src/Data/Seeded/Duckdb.antt =====
-- data/seed_duckdb.py leaves the data set in the database.
use open_warehouse_agent.Data.SeedDuckdb.{schema_sql}
use open_warehouse_agent.Data.Database.{
  Row, Table, products_table, orders_table, settlements_table, Step, drop_if_exists, create,
}
use open_warehouse_agent.Data.Warehouse.{Warehouse}
use open_warehouse_agent.Py.Str.{Str, str}
use open_warehouse_agent.Py.Exec.{Exec}
use open_warehouse_agent.Base.{List, [], ◌∷◌}

-- The rows, inserted by the statements of the script.
abbrev pub insert_duckdb : (D : Warehouse) → Table → List Row → Exec D.World (Unit {0})
insert_duckdb D products_table rows =
    D.executemany (str "insert into products values (?, ?, ?)") rows
insert_duckdb D orders_table rows =
    D.executemany (str "insert into orders values (?, ?, ?, ?, ?, ?)") rows
insert_duckdb D settlements_table rows =
    D.executemany (str "insert into settlements values (?, ?, ?, ?, ?, ?, ?)") rows

abbrev pub duckdb_meanings : List (Str × List Step)
duckdb_meanings =
    (str "drop table if exists settlements", drop_if_exists settlements_table ∷ [])
    ∷ (str "drop table if exists orders", drop_if_exists orders_table ∷ [])
    ∷ (str "drop table if exists products", drop_if_exists products_table ∷ [])
    ∷ (schema_sql, create products_table ∷ create orders_table ∷ create settlements_table ∷ [])
    ∷ []
