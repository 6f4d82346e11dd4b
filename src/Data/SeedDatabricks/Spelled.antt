-- ===== src/Data/SeedDatabricks/Spelled.antt =====
-- The VALUES clause of data/seed_databricks.py spells the rows out.
use open_warehouse_agent.Data.Database.{Row}
use open_warehouse_agent.Data.Rows.{Value, text, int, amount, day}
use open_warehouse_agent.Data.SeedDatabricks.{sql_literal, values_clause}
use open_warehouse_agent.Data.SeedDatabricks.Quoted.{
  NoQuote, read_literal, read_literal-sql_literal,
}
use open_warehouse_agent.Py.Str.{Str, str, join, of_ℕ}
use open_warehouse_agent.Base.{ℕ, ◌≡◌, refl, some, List, [], ◌∷◌, ◌++◌, map}

-- `isoformat` is that of a date, and `show_amount` is `str` of an amount in units of 100 cents.
module _ (isoformat show_amount : ℕ → Str) where
  -- How a value is written in SQL: a text as a literal that reads as it wherever it stands, a number
  -- by its digits, and a date as a literal of its ISO form.
  abbrev pub SpellsValue : Value → Str → Type 0
  SpellsValue (text s) t = (rest : Str) → NoQuote rest → read_literal (t ++ rest) ≡ some (s, rest)
  SpellsValue (int n) t = t ≡ of_ℕ n
  SpellsValue (amount n) t = t ≡ show_amount n
  SpellsValue (day d) t = t ≡ str "DATE'" ++ isoformat d ++ str "'"

  -- The values of a row, with commas between them.
  abbrev pub SpellsValues : Row → Str → Type 0
  SpellsValues [] t = t ≡ []
  SpellsValues (v ∷ []) t = SpellsValue v t
  SpellsValues (v ∷ w ∷ row) t =
      (a : Str) × (b : Str) × (t ≡ a ++ str ", " ++ b) × SpellsValue v a × SpellsValues (w ∷ row) b

  abbrev pub SpellsRow : Row → Str → Type 0
  SpellsRow row t = (a : Str) × (t ≡ str "(" ++ a ++ str ")") × SpellsValues row a

  -- The rows, in parentheses and with commas between them.
  abbrev pub SpellsRows : List Row → Str → Type 0
  SpellsRows [] t = t ≡ []
  SpellsRows (r ∷ []) t = SpellsRow r t
  SpellsRows (r ∷ q ∷ rows) t =
      (a : Str) × (b : Str) × (t ≡ a ++ str ", " ++ b) × SpellsRow r a × SpellsRows (q ∷ rows) b

  sql_literal-SpellsValue : (v : Value) → SpellsValue v (sql_literal isoformat show_amount v)
  sql_literal-SpellsValue (text s) =
      λ rest h. read_literal-sql_literal isoformat show_amount s rest h
  sql_literal-SpellsValue (int n) = unfold sql_literal in refl
  sql_literal-SpellsValue (amount n) = unfold sql_literal in refl
  sql_literal-SpellsValue (day d) = unfold sql_literal in refl

  literals-SpellsValues :
      (row : Row) → SpellsValues row (join (str ", ") (map (sql_literal isoformat show_amount) row))
  unfolding join
  literals-SpellsValues [] = refl
  literals-SpellsValues (v ∷ []) = sql_literal-SpellsValue v
  literals-SpellsValues (v ∷ w ∷ row) = (
    sql_literal isoformat show_amount v,
    join (str ", ") (map (sql_literal isoformat show_amount) (w ∷ row)),
    refl,
    sql_literal-SpellsValue v,
    literals-SpellsValues (w ∷ row),
  )

  -- The clause spells the rows.
  pub values_clause-SpellsRows :
      (rows : List Row) → SpellsRows rows (values_clause isoformat show_amount rows)
  unfolding values_clause join
  values_clause-SpellsRows [] = refl
  values_clause-SpellsRows (r ∷ []) =
      (join (str ", ") (map (sql_literal isoformat show_amount) r), refl, literals-SpellsValues r)
  values_clause-SpellsRows (r ∷ q ∷ rows) = (
    str "(" ++ join (str ", ") (map (sql_literal isoformat show_amount) r) ++ str ")",
    values_clause isoformat show_amount (q ∷ rows),
    refl,
    (join (str ", ") (map (sql_literal isoformat show_amount) r), refl, literals-SpellsValues r),
    values_clause-SpellsRows (q ∷ rows),
  )
