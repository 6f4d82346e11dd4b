-- ===== src/Data/SeedSnowflake.antt =====
-- data/seed_snowflake.py: `seed`, over a warehouse and a way to connect to it. Its schema is
-- run one statement after the other.
pub mod Settings
pub mod Meanings
use open_warehouse_agent.Data.Generator.{SyntheticDataset, Draws, generate_default}
use open_warehouse_agent.Data.Rows.{product_row, order_row, settlement_row}
use open_warehouse_agent.Data.Warehouse.{Warehouse, execute_all}
use open_warehouse_agent.Data.SeedSnowflake.Settings.{ConnectKwargs}
use open_warehouse_agent.Py.Str.{Str, str, strip, split}
use open_warehouse_agent.Py.Result.{Result}
use open_warehouse_agent.Py.Exec.{Exec, lift, try_finally, ◌>>=◌, ◌>>◌}
use open_warehouse_agent.Base.{not, ◌++◌, map}

unfoldable pub schema_sql : Str
schema_sql =
    str "\n"
    ++ str "create table products (\n"
    ++ str "    product_id integer primary key,\n"
    ++ str "    name varchar not null,\n"
    ++ str "    category varchar not null\n"
    ++ str ");\n"
    ++ str "\n"
    ++ str "create table orders (\n"
    ++ str "    order_id integer primary key,\n"
    ++ str "    product_id integer not null references products(product_id),\n"
    ++ str "    customer_email varchar not null,\n"
    ++ str "    channel varchar not null,\n"
    ++ str "    order_amount decimal(10,2) not null,\n"
    ++ str "    order_date date not null\n"
    ++ str ");\n"
    ++ str "\n"
    ++ str "create table settlements (\n"
    ++ str "    settlement_id integer primary key,\n"
    ++ str "    order_id integer not null references orders(order_id),\n"
    ++ str "    channel varchar not null,\n"
    ++ str "    gross_amount decimal(10,2) not null,\n"
    ++ str "    fee_amount decimal(10,2) not null,\n"
    ++ str "    net_amount decimal(10,2) not null,\n"
    ++ str "    settlement_date date not null\n"
    ++ str ");\n"

module _ (D : Warehouse) where
  -- The body of the `try`.
  unfoldable pub fill : SyntheticDataset → Exec D.World (Unit {0})
  fill d = do
    D.execute (str "drop table if exists settlements")
    D.execute (str "drop table if exists orders")
    D.execute (str "drop table if exists products")
    execute_all D (split b';' (strip schema_sql))
    D.executemany (str "insert into products values (%s, %s, %s)") (map product_row d.products)
    D.executemany (str "insert into orders values (%s, %s, %s, %s, %s, %s)")
        (map order_row d.orders)
    D.executemany (str "insert into settlements values (%s, %s, %s, %s, %s, %s, %s)")
        (map settlement_row d.settlements)

  unfoldable pub seed :
      (R : Draws) (seeded : R.State)
      → Result ConnectKwargs
      → (ConnectKwargs → Exec D.World (Unit {0}))
      → Exec D.World (Unit {0})
  seed R seeded kwargs connect = do
    dataset ← lift (generate_default R seeded)
    kwargs ← lift kwargs
    connect kwargs
    try_finally (fill dataset) D.close
