-- ===== src/Data/Warehouse.antt =====
-- A warehouse as the seed scripts use it: a connection that runs statements.
use open_warehouse_agent.Data.Database.{Row, Db, Table, Step, apply, run, rows_of}
use open_warehouse_agent.Data.Generator.{SyntheticDataset}
use open_warehouse_agent.Py.Str.{Str, strip, is_empty}
use open_warehouse_agent.Py.Result.{ok}
use open_warehouse_agent.Py.Exec.{Exec, pure, ◌>>◌}
use open_warehouse_agent.Base.{
  if◌then◌else◌, ◌≡◌, refl, inl, inr, false, some, List, [], ◌∷◌, ◌++◌, arith, All, Option-cases,
}

-- `execute` of a statement, `executemany` of one with a list of rows, and `close`.
pub record Warehouse : Type 1 where
  pub World : Type 0
  pub execute : Str → Exec World (Unit {0})
  pub executemany : Str → List Row → Exec World (Unit {0})
  pub close : Exec World (Unit {0})

-- `for statement in statements:` of the Snowflake and Databricks scripts.
unfoldable pub execute_all : (D : Warehouse) → List Str → Exec D.World (Unit {0})
execute_all D [] = pure tt
execute_all D (s ∷ statements) =
    let rest = execute_all D statements in
    if is_empty (strip s) then rest else (D.execute (strip s) >> rest)

module _ {World : Type 0} (view : World → Db) where
  -- Where the steps succeed on the tables, the code returns, and the tables are then as the steps
  -- leave them.
  abbrev pub Runs : Exec World (Unit {0}) → List Step → Type 0
  Runs m steps =
      (w : World) (e : Db) → run steps (view w) ≡ some e → ((m w).0 ≡ ok tt) × (view (m w).1 ≡ e)

  pub Runs-nothing : Runs (pure tt) []
  unfolding run
  Runs-nothing w e h = ground arith

  run-append :
      (xs ys : List Step) (d e : Db)
      → run (xs ++ ys) d ≡ some e
      → (f : Db) × (run xs d ≡ some f) × (run ys f ≡ some e)
  unfolding run
  run-append [] ys d e h = (d, refl, h)
  run-append (x ∷ xs) ys d e h = elim (Option-cases (apply x d)) [
    | inl n ↦ absurd (ground arith)
    | inr (c, q) ↦ let (f, a, b) = run-append xs ys c e (ground arith) in (f, ground arith, b)
  ]

  pub Runs-then :
      (m n : Exec World (Unit {0})) (xs ys : List Step)
      → Runs m xs
      → Runs n ys
      → Runs (m >> n) (xs ++ ys)
  Runs-then m n xs ys h k w e q =
      let (f, a, b) = run-append xs ys (view w) e q in
      let (r, v) = h w f a in let (r', v') = k (m w).1 e (rw v b) in ground arith

-- What is relied on of a warehouse: each text of a table of meanings runs as its steps, the rows of
-- the data set are inserted as such where there are any, and closing keeps the tables.
pub record IsRelational (D : Warehouse) (meanings : List (Str × List Step)) (d : SyntheticDataset)
    (insert_rows : Table → List Row → Exec D.World (Unit {0})) : Type 0 where
  pub view : D.World → Db
  pub statements : All (λ m. Runs view (D.execute m.0) m.1) meanings
  pub inserts :
      (t : Table)
      → is_empty (rows_of d t) ≡ false
      → Runs view (insert_rows t (rows_of d t)) (Step.insert t (rows_of d t) ∷ [])
  pub closes : (w : D.World) → ((D.close w).0 ≡ ok tt) × (view (D.close w).1 ≡ view w)
