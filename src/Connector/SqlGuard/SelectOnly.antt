-- ===== src/Connector/SqlGuard/SelectOnly.antt =====
-- Which texts the guard lets through.
use open_warehouse_agent.Connector.SqlGuard.{
  parsed, only_select, Sqlglot, present, enforce_select_only,
}
use open_warehouse_agent.Py.Str.{Str}
use open_warehouse_agent.Py.Result.{
  Result-cases, Exc, parse_error, unsafe_query_error, Result, ok, err,
}
use open_warehouse_agent.Base.{
  ◌≡◌, refl, ◌⊎◌, inl, inr, Option, some, List, [], ◌∷◌, arith, Option-cases,
}

-- The guard's own class of exception.
abbrev pub IsUnsafe : {A : Type 0} → Result A → Type 0
IsUnsafe (err (unsafe_query_error m)) = Unit
IsUnsafe _ = ⊥

-- The parser returns, or raises a `ParseError`.
abbrev pub RaisesParseErrors : {A : Type 0} → Result A → Type 0
RaisesParseErrors (ok a) = Unit
RaisesParseErrors (err (parse_error m)) = Unit
RaisesParseErrors (err e) = ⊥

module _ (S : Sqlglot) where
  parse_error_only :
      (e : Exc)
      → RaisesParseErrors {A = List (Option S.Statement)} (err e)
      → IsUnsafe (parsed S (err e))
  parse_error_only (parse_error m) h = tt
  parse_error_only e h = elim h [ ]

  -- The text parses to one statement, empty ones aside, and that is this SELECT.
  pub record IsOneSelect (sql dialect : Str) (select : S.Select) : Type 0 where
    pub statements : List (Option S.Statement)
    pub statement : S.Statement
    pub parses : S.parse sql dialect ≡ ok statements
    pub alone : present statements ≡ statement ∷ []
    pub selects : S.as_select statement ≡ some select

  pub IsOneSelect-enforce :
      (sql dialect : Str) (select : S.Select)
      → IsOneSelect sql dialect select
      → enforce_select_only S sql dialect ≡ ok select
  unfolding enforce_select_only
  IsOneSelect-enforce sql dialect select h = ground arith

  only_select-one :
      (xs : List S.Statement) (select : S.Select)
      → only_select S xs ≡ ok select
      → (x : S.Statement) × (xs ≡ x ∷ []) × (S.as_select x ≡ some select)
  only_select-one [] select h = absurd (ground arith)
  only_select-one (x ∷ []) select h = (x, refl, ground arith)
  only_select-one (x ∷ y ∷ xs) select h = absurd (ground arith)

  -- Whatever the guard lets through is one SELECT and nothing else.
  pub enforce-IsOneSelect :
      (sql dialect : Str) (select : S.Select)
      → enforce_select_only S sql dialect ≡ ok select
      → IsOneSelect sql dialect select
  enforce-IsOneSelect sql dialect select h = elim (Result-cases (S.parse sql dialect)) [
    | inl (xs, e) ↦
        let (x, alone, selects) =
          only_select-one (present xs) select (unfold enforce_select_only in ground arith) in
        record { statements = xs; statement = x; parses = e; alone = alone; selects = selects }
    | inr (e, f) ↦ absurd (unfold enforce_select_only in ground arith)
  ]

  only_select-cases :
      (xs : List S.Statement)
      → ((select : S.Select) × (only_select S xs ≡ ok select)) ⊎ IsUnsafe (only_select S xs)
  only_select-cases [] = inr tt
  only_select-cases (x ∷ []) = elim (Option-cases (S.as_select x)) [
    | inl e ↦ inr (rw (e, IsUnsafe) tt)
    | inr (select, e) ↦ inl (select, rw (e, only_select))
  ]
  only_select-cases (x ∷ y ∷ xs) = inr tt

  -- If the parser returns, or raises a `ParseError`, then the guard either lets one SELECT through
  -- or raises its own `UnsafeQueryError`; nothing else comes of it.
  pub enforce_select_only-decides :
      (sql dialect : Str)
      → RaisesParseErrors (S.parse sql dialect)
      → ((select : S.Select) × (enforce_select_only S sql dialect ≡ ok select)
          × IsOneSelect sql dialect select)
        ⊎ IsUnsafe (enforce_select_only S sql dialect)
  enforce_select_only-decides sql dialect p = elim (Result-cases (S.parse sql dialect)) [
    | inl (xs, e) ↦ elim (only_select-cases (present xs)) [
      | inl (select, f) ↦
          let g : enforce_select_only S sql dialect ≡ ok select =
            unfold enforce_select_only in ground arith in
          inl (select, g, enforce-IsOneSelect sql dialect select g)
      | inr u ↦ inr (unfold enforce_select_only in rw e u)
    ]
    | inr (e, f) ↦ inr (unfold enforce_select_only in rw f (parse_error_only e (rw f at p)))
  ]
