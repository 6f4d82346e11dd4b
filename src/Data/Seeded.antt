-- ===== src/Data/Seeded.antt =====
-- Seeding, from the connection to its close: what is in the warehouse afterwards.
pub mod Duckdb
pub mod Snowflake
pub mod Databricks
use open_warehouse_agent.Data.Generator.{SyntheticDataset, Draws, generate_default}
use open_warehouse_agent.Data.Generator.Books.{IsLawful, IsCoherent, product_key, order_key}
use open_warehouse_agent.Data.Generator.Coherent.{generate-IsCoherent}
use open_warehouse_agent.Data.Rows.{product_row, order_row, settlement_row}
use open_warehouse_agent.Data.Database.{Db, db_of, steps_of}
use open_warehouse_agent.Data.Database.Fills.{run-steps_of}
use open_warehouse_agent.Data.Warehouse.{Warehouse, Runs}
use open_warehouse_agent.Py.Str.{is_empty}
use open_warehouse_agent.Py.Result.{ok}
use open_warehouse_agent.Py.Exec.{Exec, try_finally}
use open_warehouse_agent.Base.Distinct.{count, length-count}
use open_warehouse_agent.Base.{ℕ, suc, ◌≡◌, refl, ap, false, List, [], ◌∷◌, map, arith, length}

not_empty {ℓ κ} :
    {A : Type ℓ} {B : Type κ} (f : A → ℕ) (g : A → B) (xs : List A) (n : ℕ)
    → map f xs ≡ count (suc n)
    → is_empty (map g xs) ≡ false
not_empty f g [] n h = absurd (omega (arith, length-count (suc n), ap length h))
not_empty f g (x ∷ xs) n h = refl

not_empty-map {ℓ κ} :
    {A : Type ℓ} {B : Type κ} (g : A → B) (xs : List A)
    → is_empty xs ≡ false
    → is_empty (map g xs) ≡ false
not_empty-map g [] h = h
not_empty-map g (x ∷ xs) h = refl

-- The data set that the scripts generate.
abbrev pub IsDefault : (R : Draws) → R.State → SyntheticDataset → Type 0
IsDefault R seeded d = generate_default R seeded ≡ ok d

default-IsCoherent :
    (R : Draws) (seeded : R.State) (d : SyntheticDataset)
    → IsLawful R
    → IsDefault R seeded d
    → IsCoherent 20 600 738886 739251 d
unfolding generate_default
default-IsCoherent R seeded d L h = generate-IsCoherent R L 20 600 738886 739251 seeded d h

module _ (R : Draws) (L : IsLawful R) (seeded : R.State) (d : SyntheticDataset)
    (generates : IsDefault R seeded d) (settled : is_empty d.settlements ≡ false) where
  coherent : IsCoherent 20 600 738886 739251 d
  coherent = default-IsCoherent R seeded d L generates

  pub some_products : is_empty (map product_row d.products) ≡ false
  some_products = not_empty product_key product_row d.products 19 coherent.0

  pub some_orders : is_empty (map order_row d.orders) ≡ false
  some_orders = not_empty order_key order_row d.orders 599 coherent.1

  pub some_settlements : is_empty (map settlement_row d.settlements) ≡ false
  some_settlements = not_empty-map settlement_row d.settlements settled

  -- A body that runs the steps leaves the data set, and the connection is closed behind it.
  pub closed :
      (D : Warehouse) (view : D.World → Db) (body : Exec D.World (Unit {0}))
      → ((w : D.World) → ((D.close w).0 ≡ ok tt) × (view (D.close w).1 ≡ view w))
      → Runs view body (steps_of d)
      → (w : D.World)
      → ((try_finally body D.close w).0 ≡ ok tt) × (view (try_finally body D.close w).1 ≡ db_of d)
  closed D view body closes runs w =
      let (r, v) =
        runs w (db_of d)
          (run-steps_of 20 600 738886 739251 d coherent (omega arith) (omega arith) (view w)) in
      ground (arith, r, v, closes (body w).1)
