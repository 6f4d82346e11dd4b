-- ===== src/Data/Seeded/Databricks.antt =====
-- data/seed_databricks.py leaves the data set in the warehouse.
use open_warehouse_agent.Connector.Databricks.Settings.{ConnectKwargs}
use open_warehouse_agent.Data.SeedDatabricks.{insert_text, schema_sql, fill, seed}
use open_warehouse_agent.Data.SeedDatabricks.Meanings.{
  create_products, create_orders, create_settlements, meanings,
}
use open_warehouse_agent.Data.Generator.{SyntheticDataset, Draws}
use open_warehouse_agent.Data.Generator.Books.{IsLawful}
use open_warehouse_agent.Data.Rows.{product_row, order_row}
use open_warehouse_agent.Data.Database.{
  Row, Table, products_table, orders_table, settlements_table, drop_if_exists, create, insert, Db,
  db_of, rows_of, steps_of,
}
use open_warehouse_agent.Data.Database.Reads.{read_db, read_db-db_of}
use open_warehouse_agent.Data.SeedDatabricks.Spelled.{SpellsRows, values_clause-SpellsRows}
use open_warehouse_agent.Data.Warehouse.{
  Warehouse, IsRelational, Runs, Runs-then, Runs-nothing, execute_all,
}
use open_warehouse_agent.Data.Seeded.{
  IsDefault, some_products, some_orders, some_settlements, closed,
}
use open_warehouse_agent.Py.Str.{Str, str, strip, split, lstrip, rstrip, is_empty}
use open_warehouse_agent.Py.Result.{Result, ok}
use open_warehouse_agent.Py.Exec.{Exec, pure, ◌>>◌}
use open_warehouse_agent.Base.{
  ℕ, ◌≡◌, refl, sym, ap, ◌∙◌, false, some, List, [], ◌∷◌, ◌++◌, map, arith, All, subst,
}

-- The rows, inserted by one statement that spells them all out.
abbrev pub insert_databricks :
    (ℕ → Str) → (ℕ → Str) → (D : Warehouse) → Table → List Row → Exec D.World (Unit {0})
insert_databricks isoformat show_amount D products_table rows =
    D.execute (insert_text isoformat show_amount (str "insert into products values ") rows)
insert_databricks isoformat show_amount D orders_table rows =
    D.execute (insert_text isoformat show_amount (str "insert into orders values ") rows)
insert_databricks isoformat show_amount D settlements_table rows =
    D.execute (insert_text isoformat show_amount (str "insert into settlements values ") rows)

-- The start of the statement that inserts rows into a table.
abbrev pub insert_head : Table → Str
insert_head products_table = str "insert into products values "
insert_head orders_table = str "insert into orders values "
insert_head settlements_table = str "insert into settlements values "

-- What is relied on of the warehouse: each text of the table of meanings runs as its steps, an INSERT
-- whose VALUES spell the rows of the data set out inserts them, where there are any, and closing
-- keeps the tables.
pub record IsWarehouse (isoformat show_amount : ℕ → Str) (D : Warehouse) (d : SyntheticDataset)
    : Type 0 where
  pub view : D.World → Db
  pub statements : All (λ m. Runs view (D.execute m.0) m.1) meanings
  pub inserts :
      (t : Table) (values : Str)
      → is_empty (rows_of d t) ≡ false
      → SpellsRows isoformat show_amount (rows_of d t) values
      → Runs view (D.execute (insert_head t ++ values)) (insert t (rows_of d t) ∷ [])
  pub closes : (w : D.World) → ((D.close w).0 ≡ ok tt) × (view (D.close w).1 ≡ view w)

inserts-spelled :
    (isoformat show_amount : ℕ → Str) (D : Warehouse) (d : SyntheticDataset)
    → (W : IsWarehouse isoformat show_amount D d) (t : Table) → is_empty (rows_of d t) ≡ false
    → Runs W.view
        (insert_databricks isoformat show_amount D t (rows_of d t))
        (insert t (rows_of d t) ∷ [])
inserts-spelled iso amt D d W products_table h =
    W.inserts products_table _ h (values_clause-SpellsRows iso amt (rows_of d products_table))
inserts-spelled iso amt D d W orders_table h =
    W.inserts orders_table _ h (values_clause-SpellsRows iso amt (rows_of d orders_table))
inserts-spelled iso amt D d W settlements_table h =
    W.inserts settlements_table _ h (values_clause-SpellsRows iso amt (rows_of d settlements_table))

abbrev IsWarehouse-IsRelational :
    (isoformat show_amount : ℕ → Str) (D : Warehouse) (d : SyntheticDataset)
    → IsWarehouse isoformat show_amount D d
    → IsRelational D meanings d (insert_databricks isoformat show_amount D)
IsWarehouse-IsRelational iso amt D d W = record {
  view = W.view;
  statements = W.statements;
  inserts = inserts-spelled iso amt D d W;
  closes = W.closes;
}

-- The schema, split at its semicolons, is the three statements.
split_schema :
    (D : Warehouse)
    → execute_all D (split b';' (strip schema_sql)) ≡ (
        D.execute create_products
        >> (D.execute create_orders >> (D.execute create_settlements >> pure tt)))
unfolding execute_all split strip lstrip rstrip schema_sql
split_schema D = refl

module _ (R : Draws) (L : IsLawful R) (seeded : R.State) (d : SyntheticDataset)
    (generates : IsDefault R seeded d) (settled : is_empty d.settlements ≡ false)
    (isoformat show_amount : ℕ → Str) where
  create_all-Runs :
      (D : Warehouse) (rel : IsRelational D meanings d (insert_databricks isoformat show_amount D))
      → Runs rel.view
          (execute_all D (split b';' (strip schema_sql)))
          (create products_table ∷ create orders_table ∷ create settlements_table ∷ [])
  create_all-Runs D rel =
      let v = rel.view in
      subst
        (λ m.
          Runs v m (create products_table ∷ create orders_table ∷ create settlements_table ∷ []))
        (sym (split_schema D))
        (Runs-then v _ _ (create products_table ∷ []) _ rel.statements.1.1.1.0 (
          Runs-then v _ _ (create orders_table ∷ []) _ rel.statements.1.1.1.1.0 (
            Runs-then v _ _ (create settlements_table ∷ []) _ rel.statements.1.1.1.1.1.0
              (Runs-nothing v))))

  fill-Runs :
      (D : Warehouse) (rel : IsRelational D meanings d (insert_databricks isoformat show_amount D))
      → Runs rel.view (fill isoformat show_amount D d) (steps_of d)
  unfolding fill
  fill-Runs D rel =
      let v = rel.view in
      Runs-then v _ _ (drop_if_exists settlements_table ∷ []) _ rel.statements.0 (
        Runs-then v _ _ (drop_if_exists orders_table ∷ []) _ rel.statements.1.0 (
          Runs-then v _ _ (drop_if_exists products_table ∷ []) _ rel.statements.1.1.0 (
            Runs-then v _ _
              (create products_table ∷ create orders_table ∷ create settlements_table ∷ []) _
              (create_all-Runs D rel)
              (Runs-then v _ _ (insert products_table (map product_row d.products) ∷ []) _
                (rel.inserts products_table (some_products R L seeded d generates settled))
                (Runs-then v _ _ (insert orders_table (map order_row d.orders) ∷ []) _
                  (rel.inserts orders_table (some_orders R L seeded d generates settled))
                  (rel.inserts settlements_table
                    (some_settlements R L seeded d generates settled)))))))

  seed-fills :
      (D : Warehouse) (rel : IsRelational D meanings d (insert_databricks isoformat show_amount D))
      → (settings : Result ConnectKwargs) (kwargs : ConnectKwargs)
      → (connect : ConnectKwargs → Exec D.World (Unit {0})) (w : D.World) → settings ≡ ok kwargs
      → (connect kwargs w).0 ≡ ok tt
      → ((seed isoformat show_amount D R seeded settings connect w).0 ≡ ok tt)
        × (rel.view (seed isoformat show_amount D R seeded settings connect w).1 ≡ db_of d)
  unfolding seed
  seed-fills D rel settings kwargs connect w e c =
      let (r, v) =
        closed R L seeded d generates settled D rel.view (fill isoformat show_amount D d) rel.closes
          (fill-Runs D rel) (connect kwargs w).1 in
      ground (arith, generates, r, v)

  -- data/seed_databricks.py, on any warehouse that runs its statements as they are meant, and inserts
  -- the rows that a VALUES clause spells out: with lawful draws that settle some order, and settings
  -- that are there, it returns, and the three tables, read row by row, column by column, are then the
  -- data set, whatever they were before.
  pub seed_databricks-fills :
      (D : Warehouse) (W : IsWarehouse isoformat show_amount D d)
      → (settings : Result ConnectKwargs) (kwargs : ConnectKwargs)
      → (connect : ConnectKwargs → Exec D.World (Unit {0})) (w : D.World) → settings ≡ ok kwargs
      → (connect kwargs w).0 ≡ ok tt
      → ((seed isoformat show_amount D R seeded settings connect w).0 ≡ ok tt)
        × (read_db (W.view (seed isoformat show_amount D R seeded settings connect w).1) ≡ some d)
  seed_databricks-fills D W settings kwargs connect w e c =
      let (r, v) =
        seed-fills D (IsWarehouse-IsRelational isoformat show_amount D d W) settings kwargs connect
          w e c in
      (r, ap read_db v ∙ read_db-db_of d)
