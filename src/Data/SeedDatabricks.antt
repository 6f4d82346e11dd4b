-- ===== src/Data/SeedDatabricks.antt =====
-- data/seed_databricks.py: `seed`, with the values of its INSERT statements as SQL literals.
pub mod Quoted
pub mod Spelled
pub mod Settings
pub mod Meanings
use open_warehouse_agent.Data.Database.{Row}
use open_warehouse_agent.Data.Warehouse.{Warehouse, execute_all}
use open_warehouse_agent.Connector.Databricks.Settings.{ConnectKwargs}
use open_warehouse_agent.Py.Result.{Result}
use open_warehouse_agent.Py.Exec.{Exec, lift, try_finally, ◌>>=◌, ◌>>◌}
use open_warehouse_agent.Data.Generator.{Draws, generate_default, SyntheticDataset}
use open_warehouse_agent.Data.Rows.{
  Value, text, int, amount, day, product_row, order_row, settlement_row,
}
use open_warehouse_agent.Py.Str.{strip, split, Str, str, join, of_ℕ}
use open_warehouse_agent.Base.{ℕ, ◌==◌, if◌then◌else◌, not, List, [], ◌∷◌, ◌++◌, map}

unfoldable pub schema_sql : Str
schema_sql =
    str "\n"
    ++ str "create table products (\n"
    ++ str "    product_id int not null,\n"
    ++ str "    name string not null,\n"
    ++ str "    category string not null\n"
    ++ str ");\n"
    ++ str "\n"
    ++ str "create table orders (\n"
    ++ str "    order_id int not null,\n"
    ++ str "    product_id int not null,\n"
    ++ str "    customer_email string not null,\n"
    ++ str "    channel string not null,\n"
    ++ str "    order_amount decimal(10,2) not null,\n"
    ++ str "    order_date date not null\n"
    ++ str ");\n"
    ++ str "\n"
    ++ str "create table settlements (\n"
    ++ str "    settlement_id int not null,\n"
    ++ str "    order_id int not null,\n"
    ++ str "    channel string not null,\n"
    ++ str "    gross_amount decimal(10,2) not null,\n"
    ++ str "    fee_amount decimal(10,2) not null,\n"
    ++ str "    net_amount decimal(10,2) not null,\n"
    ++ str "    settlement_date date not null\n"
    ++ str ");\n"

-- `value.replace("'", "''")`
unfoldable pub doubled : Str → Str
doubled [] = []
doubled (c ∷ s) = let rest = doubled s in if c == b'\'' then b'\'' ∷ b'\'' ∷ rest else c ∷ rest

-- `isoformat` is that of a date, and `show_amount` is `str` of an amount in units of 100 cents.
module _ (isoformat show_amount : ℕ → Str) where
  -- `_sql_literal`
  unfoldable pub sql_literal : Value → Str
  unfolding doubled
  sql_literal (text s) = str "'" ++ doubled s ++ str "'"
  sql_literal (day d) = str "DATE'" ++ isoformat d ++ str "'"
  sql_literal (int n) = of_ℕ n
  sql_literal (amount n) = show_amount n

  abbrev row_text : List Value → Str
  row_text row = str "(" ++ join (str ", ") (map sql_literal row) ++ str ")"

  -- `_values_clause`
  unfoldable pub values_clause : List (List Value) → Str
  values_clause rows = join (str ", ") (map row_text rows)

  abbrev pub insert_text : Str → List Row → Str
  insert_text head rows = head ++ values_clause rows

  module _ (D : Warehouse) where
    -- The body of the `try`.
    unfoldable pub fill : SyntheticDataset → Exec D.World (Unit {0})
    fill d = do
      D.execute (str "drop table if exists settlements")
      D.execute (str "drop table if exists orders")
      D.execute (str "drop table if exists products")
      execute_all D (split b';' (strip schema_sql))
      D.execute (insert_text (str "insert into products values ") (map product_row d.products))
      D.execute (insert_text (str "insert into orders values ") (map order_row d.orders))
      D.execute
          (insert_text (str "insert into settlements values ") (map settlement_row d.settlements))

    unfoldable pub seed :
        (R : Draws) (seeded : R.State)
        → Result ConnectKwargs
        → (ConnectKwargs → Exec D.World (Unit {0}))
        → Exec D.World (Unit {0})
    seed R seeded kwargs connect = do
      dataset ← lift (generate_default R seeded)
      kwargs ← lift kwargs
      connect kwargs
      try_finally (fill dataset) D.close
