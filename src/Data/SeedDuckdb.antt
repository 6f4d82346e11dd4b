-- ===== src/Data/SeedDuckdb.antt =====
-- data/seed_duckdb.py: `seed`, over a warehouse and a way to open a database.
use open_warehouse_agent.Data.Generator.{SyntheticDataset, Draws, generate_default}
use open_warehouse_agent.Data.Rows.{product_row, order_row, settlement_row}
use open_warehouse_agent.Data.Warehouse.{Warehouse}
use open_warehouse_agent.Py.Str.{Str, str}
use open_warehouse_agent.Py.Exec.{Exec, lift, try_finally, ◌>>=◌, ◌>>◌}
use open_warehouse_agent.Base.{◌++◌, map}

unfoldable pub schema_sql : Str
schema_sql =
    str "\n"
    ++ str "create table products (\n"
    ++ str "    product_id integer primary key,\n"
    ++ str "    name varchar not null,\n"
    ++ str "    category varchar not null\n"
    ++ str ");\n"
    ++ str "\n"
    ++ str "create table orders (\n"
    ++ str "    order_id integer primary key,\n"
    ++ str "    product_id integer not null references products(product_id),\n"
    ++ str "    customer_email varchar not null,\n"
    ++ str "    channel varchar not null,\n"
    ++ str "    order_amount decimal(10,2) not null,\n"
    ++ str "    order_date date not null\n"
    ++ str ");\n"
    ++ str "\n"
    ++ str "create table settlements (\n"
    ++ str "    settlement_id integer primary key,\n"
    ++ str "    order_id integer not null references orders(order_id),\n"
    ++ str "    channel varchar not null,\n"
    ++ str "    gross_amount decimal(10,2) not null,\n"
    ++ str "    fee_amount decimal(10,2) not null,\n"
    ++ str "    net_amount decimal(10,2) not null,\n"
    ++ str "    settlement_date date not null\n"
    ++ str ");\n"

module _ (D : Warehouse) where
  -- The body of the `try`.
  unfoldable pub fill : SyntheticDataset → Exec D.World (Unit {0})
  fill d = do
    D.execute (str "drop table if exists settlements")
    D.execute (str "drop table if exists orders")
    D.execute (str "drop table if exists products")
    D.execute schema_sql
    D.executemany (str "insert into products values (?, ?, ?)") (map product_row d.products)
    D.executemany (str "insert into orders values (?, ?, ?, ?, ?, ?)") (map order_row d.orders)
    D.executemany (str "insert into settlements values (?, ?, ?, ?, ?, ?, ?)")
        (map settlement_row d.settlements)

  unfoldable pub seed :
      (R : Draws) (seeded : R.State)
      → (Str → Exec D.World (Unit {0}))
      → Str
      → Exec D.World (Unit {0})
  seed R seeded connect database_path = do
    dataset ← lift (generate_default R seeded)
    connect database_path
    try_finally (fill dataset) D.close
