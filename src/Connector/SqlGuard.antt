-- ===== src/Connector/SqlGuard.antt =====
-- connector/sql_guard.py: one SELECT alone, with a clamped LIMIT. sqlglot is a parameter.
pub mod Limits
pub mod SelectOnly
use open_warehouse_agent.Base.Int.{ℤ, ltb_ℤ}
use open_warehouse_agent.Py.Str.{Str, str}
use open_warehouse_agent.Py.Number.{parse_int}
use open_warehouse_agent.Py.Result.{parse_error, unsafe_query_error, Result, ok, err}
use open_warehouse_agent.Base.{
  ◌+◌, if◌then◌else◌, not, Option, none, some, List, [], ◌∷◌, ◌++◌, or_default,
}

-- What `limit.expression.this` gives: an AttributeError, a text, or another syntax node.
pub data LimitValue : Type 0 where
  missing : LimitValue
  text : Str → LimitValue
  node : LimitValue

-- What the guard uses of sqlglot. `parse` of a text in a dialect; `as_select` is the
-- `isinstance` test for `exp.Select`; `limit_of` is `args.get("limit")`; `limit` sets the LIMIT of
-- a copy; `sql` renders in a dialect.
pub record Sqlglot : Type 1 where
  pub Statement : Type 0
  pub Select : Type 0
  pub Limit : Type 0
  pub parse : Str → Str → Result (List (Option Statement))
  pub as_select : Statement → Option Select
  pub type_name : Statement → Str
  pub limit_of : Select → Option Limit
  pub limit_value : Limit → LimitValue
  pub limit : Select → ℤ → Select
  pub sql : Select → Str → Str

-- `int(existing_limit.expression.this)`; `none` for the three exceptions that are caught.
unfoldable pub int_of : LimitValue → Option ℤ
int_of missing = none
int_of (text s) = parse_int s
int_of node = none

-- `[s for s in statements if s is not None]`
abbrev pub present : {A : Type 0} → List (Option A) → List A
present [] = []
present (none ∷ xs) = present xs
present (some x ∷ xs) = x ∷ present xs

module _ (S : Sqlglot) where
  abbrev pub only_select : List S.Statement → Result S.Select
  only_select (s ∷ []) = elim (S.as_select s) [
    | some select ↦ ok select
    | none ↦
        err (unsafe_query_error (str "only SELECT statements are allowed, got " ++ S.type_name s))
  ]
  only_select _ = err (unsafe_query_error (str "exactly one SQL statement is required"))

  -- The `try` round the parser takes `ParseError` alone.
  abbrev pub parsed : Result (List (Option S.Statement)) → Result S.Select
  parsed (ok statements) = only_select (present statements)
  parsed (err (parse_error m)) = err (unsafe_query_error (str "could not parse query: " ++ m))
  parsed (err e) = err e

  unfoldable pub enforce_select_only : Str → Str → Result S.Select
  enforce_select_only sql dialect = parsed (S.parse sql dialect)

  -- The number of rows that an existing LIMIT asks for, or `max_rows` if it cannot be read.
  unfoldable pub requested : S.Limit → ℤ → ℤ
  requested l max_rows = or_default (int_of (S.limit_value l)) max_rows

  -- The statement that `apply_row_limit` renders.
  unfoldable pub clamp : S.Select → ℤ → S.Select
  unfolding requested
  clamp select max_rows = elim (S.limit_of select) [
    | some l ↦ if ltb_ℤ max_rows (requested l max_rows) then S.limit select max_rows else select
    | none ↦ S.limit select max_rows
  ]

  unfoldable pub apply_row_limit : S.Select → ℤ → Str → Str
  apply_row_limit select max_rows dialect = S.sql (clamp select max_rows) dialect
