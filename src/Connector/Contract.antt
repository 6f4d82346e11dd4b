-- ===== src/Connector/Contract.antt =====
-- What every adapter promises the MCP server: it runs nothing but one SELECT, and returns no more
-- rows than it is asked for.
use open_warehouse_agent.Base.Int.{ℤ, pos}
use open_warehouse_agent.Connector.Protocol.{QueryResult, Fetched, WarehouseConnector, Driver}
use open_warehouse_agent.Connector.SqlGuard.{Sqlglot, enforce_select_only, clamp, apply_row_limit}
use open_warehouse_agent.Connector.SqlGuard.SelectOnly.{
  IsOneSelect, enforce-IsOneSelect, IsOneSelect-enforce,
}
use open_warehouse_agent.Connector.SqlGuard.Limits.{
  IsLawful, IsReadable, limit_number, smaller, clamp-limit_number, clamp-IsCount,
}
use open_warehouse_agent.Connector.Rows.{query_result}
use open_warehouse_agent.Connector.Duckdb
use open_warehouse_agent.Connector.Snowflake
use open_warehouse_agent.Connector.Databricks
use open_warehouse_agent.Py.Str.{Str}
use open_warehouse_agent.Py.Result.{Exc, err, ok, Result-cases}
use open_warehouse_agent.Py.Exec.{◌>>=◌, Exec, pure, lift}
use open_warehouse_agent.Base.{
  ℕ, ◌≤◌, ltb, ◌≡◌, ◌⊎◌, inl, inr, none, some, [], arith, length, Bool-cases,
}

-- A statement's LIMIT is missing, or is a count of rows that reads as a number, not a negative one.
abbrev pub LimitsRows : (S : Sqlglot) → IsLawful S → S.Select → Type 0
LimitsRows S L s =
    (S.limit_of s ≡ none) ⊎ ((n : ℕ) × (limit_number S s ≡ some (pos n)) × L.IsCount s)

-- The warehouse behind a driver returns no more rows than the LIMIT of a statement says, if this is
-- a count of rows.
pub record RespectsLimits (S : Sqlglot) (L : IsLawful S) (D : Driver) (dialect : Str) : Type 0 where
  pub at_most :
      (s : S.Select) (n : ℕ) (c : D.Conn) (fetched : Fetched)
      → limit_number S s ≡ some (pos n)
      → L.IsCount s
      → (D.execute (S.sql s dialect) [] c).0 ≡ ok fetched
      → length fetched.rows ≤ n

smaller-pos :
    (S : Sqlglot) (L : IsLawful S) (s : S.Select) (k : ℕ)
    → LimitsRows S L s
    → (n : ℕ) × (smaller (limit_number S s) (pos k) ≡ pos n) × (n ≤ k)
smaller-pos S L s k (inl e) = (k, ground arith, omega arith)
smaller-pos S L s k (inr (n, e, c)) = elim (Bool-cases (ltb k n)) [
  | inl h ↦ (k, ground arith, omega arith)
  | inr h ↦ (n, ground arith, ground arith)
]

LimitsRows-IsReadable :
    (S : Sqlglot) (L : IsLawful S) (s : S.Select) → LimitsRows S L s → IsReadable S s
LimitsRows-IsReadable S L s (inl e) = inl e
LimitsRows-IsReadable S L s (inr (n, e, c)) = inr (pos n, e)

LimitsRows-IsCount :
    (S : Sqlglot) (L : IsLawful S) (s : S.Select)
    → LimitsRows S L s
    → (S.limit_of s ≡ none) ⊎ L.IsCount s
LimitsRows-IsCount S L s (inl e) = inl e
LimitsRows-IsCount S L s (inr (n, e, c)) = inr c

-- The three adapters, by their names in `SUPPORTED_BACKENDS`.
pub data Backend : Type 0 where
  duckdb snowflake databricks : Backend

module _ (S : Sqlglot) (D : Driver) (default_schema : Str) where
  abbrev pub connector_of : Backend → WarehouseConnector
  connector_of duckdb = Duckdb.connector S D
  connector_of snowflake = Snowflake.connector S D
  connector_of databricks = Databricks.connector S D default_schema

  -- The common body of the adapters' `run_query`.
  abbrev guarded : Str → Str → ℤ → Exec D.Conn QueryResult
  guarded dialect sql limit = do
    select ← lift (enforce_select_only S sql dialect)
    fetched ← D.execute (apply_row_limit S select limit dialect) []
    pure (query_result fetched limit)

  guarded-guards :
      (dialect sql : Str) (limit : ℤ) (c : D.Conn)
      → ((s : S.Select) → ¬ IsOneSelect S sql dialect s)
      → (e : Exc) × (guarded dialect sql limit c ≡ (err e, c))
  guarded-guards dialect sql limit c refused =
      elim (Result-cases (enforce_select_only S sql dialect)) [
        | inl (s, e) ↦ absurd (refused s (enforce-IsOneSelect S sql dialect s e))
        | inr (e, f) ↦ (e, ground arith)
      ]

  guarded-bounded :
      (dialect sql : Str) (k : ℕ) (c : D.Conn) (s : S.Select) (r : QueryResult)
      → (L : IsLawful S) → RespectsLimits S L D dialect
      → IsOneSelect S sql dialect s
      → LimitsRows S L s
      → (guarded dialect sql (pos k) c).0 ≡ ok r
      → (r.row_count ≤ k) × (length r.rows ≡ r.row_count)
  guarded-bounded dialect sql k c s r L R one lim h =
      let (n, e, le) = smaller-pos S L s k lim in
      let (f, g) = clamp-limit_number S s k L (LimitsRows-IsReadable S L s lim) in
      let sel = IsOneSelect-enforce S sql dialect s one in
      elim (Result-cases (D.execute (S.sql (clamp S s (pos k)) dialect) [] c).0) [
        | inl (fetched, x) ↦
            let b =
              R.at_most (clamp S s (pos k)) n c fetched (ground arith)
                (clamp-IsCount S s k L (LimitsRows-IsCount S L s lim)) x in
            unfold apply_row_limit query_result in ground arith
        | inr (x, y) ↦ absurd (unfold apply_row_limit in ground arith)
      ]

  -- Whichever adapter it is, `run_query` of a text that is not one SELECT and nothing else raises,
  -- and the connection is as it was: the warehouse is not asked.
  pub run_query-guards :
      (b : Backend) (sql : Str) (limit : ℤ) (c : (connector_of b).Conn)
      → ((s : S.Select) → ¬ IsOneSelect S sql (connector_of b).dialect s)
      → (e : Exc) × ((connector_of b).run_query sql limit c ≡ (err e, c))
  run_query-guards duckdb sql limit c h =
      let (e, p) = guarded-guards Duckdb.dialect sql limit c h in (e, unfold Duckdb.run_query in p)
  run_query-guards snowflake sql limit c h =
      let (e, p) = guarded-guards Snowflake.dialect sql limit c h in
      (e, unfold Snowflake.run_query in p)
  run_query-guards databricks sql limit c h =
      let (e, p) = guarded-guards Databricks.dialect sql limit c h in
      (e, unfold Databricks.run_query in p)

  -- Whichever adapter it is, `run_query` of a SELECT with no LIMIT, or with one that is a count of
  -- rows, not negative, returns at most `row_limit` rows, and counts them.
  pub run_query-bounded :
      (b : Backend) (sql : Str) (k : ℕ) (c : (connector_of b).Conn) (s : S.Select) (r : QueryResult)
      → (L : IsLawful S) → RespectsLimits S L D (connector_of b).dialect
      → IsOneSelect S sql (connector_of b).dialect s
      → LimitsRows S L s
      → ((connector_of b).run_query sql (pos k) c).0 ≡ ok r
      → (r.row_count ≤ k) × (length r.rows ≡ r.row_count)
  run_query-bounded duckdb sql k c s r L R one lim h =
      guarded-bounded Duckdb.dialect sql k c s r L R one lim (unfold Duckdb.run_query in h)
  run_query-bounded snowflake sql k c s r L R one lim h =
      guarded-bounded Snowflake.dialect sql k c s r L R one lim (unfold Snowflake.run_query in h)
  run_query-bounded databricks sql k c s r L R one lim h =
      guarded-bounded Databricks.dialect sql k c s r L R one lim (unfold Databricks.run_query in h)
