-- ===== src/Data/SeedSnowflake/Meanings.antt =====
-- What the statements of data/seed_snowflake.py mean.
use open_warehouse_agent.Data.Database.{
  products_table, orders_table, settlements_table, Step, drop_if_exists, create,
}
use open_warehouse_agent.Py.Str.{Str, str}
use open_warehouse_agent.Base.{List, [], ◌∷◌, ◌++◌}

abbrev pub create_products : Str
create_products =
    str "create table products (\n"
    ++ str "    product_id integer primary key,\n"
    ++ str "    name varchar not null,\n"
    ++ str "    category varchar not null\n"
    ++ str ")"

abbrev pub create_orders : Str
create_orders =
    str "create table orders (\n"
    ++ str "    order_id integer primary key,\n"
    ++ str "    product_id integer not null references products(product_id),\n"
    ++ str "    customer_email varchar not null,\n"
    ++ str "    channel varchar not null,\n"
    ++ str "    order_amount decimal(10,2) not null,\n"
    ++ str "    order_date date not null\n"
    ++ str ")"

abbrev pub create_settlements : Str
create_settlements =
    str "create table settlements (\n"
    ++ str "    settlement_id integer primary key,\n"
    ++ str "    order_id integer not null references orders(order_id),\n"
    ++ str "    channel varchar not null,\n"
    ++ str "    gross_amount decimal(10,2) not null,\n"
    ++ str "    fee_amount decimal(10,2) not null,\n"
    ++ str "    net_amount decimal(10,2) not null,\n"
    ++ str "    settlement_date date not null\n"
    ++ str ")"

abbrev pub meanings : List (Str × List Step)
meanings =
    (str "drop table if exists settlements", drop_if_exists settlements_table ∷ [])
    ∷ (str "drop table if exists orders", drop_if_exists orders_table ∷ [])
    ∷ (str "drop table if exists products", drop_if_exists products_table ∷ [])
    ∷ (create_products, create products_table ∷ [])
    ∷ (create_orders, create orders_table ∷ [])
    ∷ (create_settlements, create settlements_table ∷ [])
    ∷ []
