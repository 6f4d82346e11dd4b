-- ===== src/Data/Seeded/Snowflake.antt =====
-- data/seed_snowflake.py leaves the data set in the warehouse.
use open_warehouse_agent.Data.SeedSnowflake.{schema_sql, fill, seed}
use open_warehouse_agent.Data.SeedSnowflake.Settings.{ConnectKwargs}
use open_warehouse_agent.Data.SeedSnowflake.Meanings.{
  create_products, create_orders, create_settlements, meanings,
}
use open_warehouse_agent.Data.Generator.{SyntheticDataset, Draws}
use open_warehouse_agent.Data.Generator.Books.{IsLawful}
use open_warehouse_agent.Data.Rows.{product_row, order_row}
use open_warehouse_agent.Data.Database.{
  Row, Table, products_table, orders_table, settlements_table, drop_if_exists, create, insert,
  db_of, steps_of,
}
use open_warehouse_agent.Data.Warehouse.{
  Warehouse, IsRelational, Runs, Runs-then, Runs-nothing, execute_all,
}
use open_warehouse_agent.Data.Seeded.{
  IsDefault, some_products, some_orders, some_settlements, closed,
}
use open_warehouse_agent.Py.Str.{str, strip, split, lstrip, rstrip, is_empty}
use open_warehouse_agent.Py.Result.{Result, ok}
use open_warehouse_agent.Py.Exec.{Exec, pure, ◌>>◌}
use open_warehouse_agent.Base.{◌≡◌, refl, sym, false, List, [], ◌∷◌, map, arith, subst}

-- The rows, inserted by the statements of the script.
abbrev pub insert_snowflake : (D : Warehouse) → Table → List Row → Exec D.World (Unit {0})
insert_snowflake D products_table rows =
    D.executemany (str "insert into products values (%s, %s, %s)") rows
insert_snowflake D orders_table rows =
    D.executemany (str "insert into orders values (%s, %s, %s, %s, %s, %s)") rows
insert_snowflake D settlements_table rows =
    D.executemany (str "insert into settlements values (%s, %s, %s, %s, %s, %s, %s)") rows

-- The schema, split at its semicolons, is the three statements.
split_schema :
    (D : Warehouse)
    → execute_all D (split b';' (strip schema_sql)) ≡ (
        D.execute create_products
        >> (D.execute create_orders >> (D.execute create_settlements >> pure tt)))
unfolding execute_all split strip lstrip rstrip schema_sql
split_schema D = refl

module _ (R : Draws) (L : IsLawful R) (seeded : R.State) (d : SyntheticDataset)
    (generates : IsDefault R seeded d) (settled : is_empty d.settlements ≡ false) where
  create_all-Runs :
      (D : Warehouse) (rel : IsRelational D meanings d (insert_snowflake D))
      → Runs rel.view
          (execute_all D (split b';' (strip schema_sql)))
          (create products_table ∷ create orders_table ∷ create settlements_table ∷ [])
  create_all-Runs D rel =
      let v = rel.view in
      subst
        (λ m.
          Runs v m (create products_table ∷ create orders_table ∷ create settlements_table ∷ []))
        (sym (split_schema D))
        (Runs-then v _ _ (create products_table ∷ []) _ rel.statements.1.1.1.0 (
          Runs-then v _ _ (create orders_table ∷ []) _ rel.statements.1.1.1.1.0 (
            Runs-then v _ _ (create settlements_table ∷ []) _ rel.statements.1.1.1.1.1.0
              (Runs-nothing v))))

  fill-Runs :
      (D : Warehouse) (rel : IsRelational D meanings d (insert_snowflake D))
      → Runs rel.view (fill D d) (steps_of d)
  unfolding fill
  fill-Runs D rel =
      let v = rel.view in
      Runs-then v _ _ (drop_if_exists settlements_table ∷ []) _ rel.statements.0 (
        Runs-then v _ _ (drop_if_exists orders_table ∷ []) _ rel.statements.1.0 (
          Runs-then v _ _ (drop_if_exists products_table ∷ []) _ rel.statements.1.1.0 (
            Runs-then v _ _
              (create products_table ∷ create orders_table ∷ create settlements_table ∷ []) _
              (create_all-Runs D rel)
              (Runs-then v _ _ (insert products_table (map product_row d.products) ∷ []) _
                (rel.inserts products_table (some_products R L seeded d generates settled))
                (Runs-then v _ _ (insert orders_table (map order_row d.orders) ∷ []) _
                  (rel.inserts orders_table (some_orders R L seeded d generates settled))
                  (rel.inserts settlements_table
                    (some_settlements R L seeded d generates settled)))))))

  -- data/seed_snowflake.py, on any warehouse that runs its statements as they are meant:
  -- with lawful draws that settle some order, and settings that are there, it returns, and the
  -- tables are then the data set, whatever they were before.
  pub seed_snowflake-fills :
      (D : Warehouse) (rel : IsRelational D meanings d (insert_snowflake D))
      → (settings : Result ConnectKwargs) (kwargs : ConnectKwargs)
      → (connect : ConnectKwargs → Exec D.World (Unit {0})) (w : D.World) → settings ≡ ok kwargs
      → (connect kwargs w).0 ≡ ok tt
      → ((seed D R seeded settings connect w).0 ≡ ok tt)
        × (rel.view (seed D R seeded settings connect w).1 ≡ db_of d)
  unfolding seed
  seed_snowflake-fills D rel settings kwargs connect w e c =
      let (r, v) =
        closed R L seeded d generates settled D rel.view (fill D d) rel.closes (fill-Runs D rel)
          (connect kwargs w).1 in
      ground (arith, generates, r, v)
