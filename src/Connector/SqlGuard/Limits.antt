-- ===== src/Connector/SqlGuard/Limits.antt =====
-- What the guard does to a LIMIT.
use open_warehouse_agent.Base.Int.{min_ℤ, ℤ, pos, ltb_ℤ, ◌≤ℤ◌}
use open_warehouse_agent.Connector.SqlGuard.{Sqlglot, int_of, requested, clamp, apply_row_limit}
use open_warehouse_agent.Py.Str.{Str}
use open_warehouse_agent.Base.{
  ℕ, ◌≡◌, ◌⊎◌, inl, inr, Option, none, some, arith, Bool-cases, Option-cases,
}

-- What the guard relies on: a LIMIT that `limit` sets to a number of rows is there, reads as that
-- number, and is a count of rows. `IsCount` tells the statements whose LIMIT is one from those that
-- limit otherwise, to a percentage for instance.
pub record IsLawful (S : Sqlglot) : Type 1 where
  pub IsCount : S.Select → Type 0
  pub limit_of-limit :
      (s : S.Select) (n : ℕ)
      → (l : S.Limit) × (S.limit_of (S.limit s (pos n)) ≡ some l)
        × (int_of (S.limit_value l) ≡ some (pos n))
  pub limit-IsCount : (s : S.Select) (n : ℕ) → IsCount (S.limit s (pos n))

-- The number that a statement's LIMIT is, if it has one and it reads as a number.
abbrev pub limit_number : (S : Sqlglot) → S.Select → Option ℤ
limit_number S s = elim (S.limit_of s) [ none ↦ none | some l ↦ int_of (S.limit_value l) ]

-- The smaller of the LIMIT that is there and `max_rows`.
abbrev pub smaller : Option ℤ → ℤ → ℤ
smaller none m = m
smaller (some n) m = min_ℤ n m

pub smaller-le : (o : Option ℤ) (m : ℤ) → smaller o m ≤ℤ m
smaller-le o m = ground arith

module _ (S : Sqlglot) where
  -- There is no LIMIT, or it reads as a number.
  abbrev pub IsReadable : S.Select → Type 0
  IsReadable s = (S.limit_of s ≡ none) ⊎ ((n : ℤ) × (limit_number S s ≡ some n))

  -- A statement with no LIMIT, or with one that reads as a number, gets the smaller of that and
  -- `max_rows`; so the LIMIT that it is rendered with is at most `max_rows`.
  pub clamp-limit_number :
      (s : S.Select) (max_rows : ℕ)
      → IsLawful S
      → IsReadable s
      → (limit_number S (clamp S s (pos max_rows))
          ≡ some (smaller (limit_number S s) (pos max_rows)))
        × (smaller (limit_number S s) (pos max_rows) ≤ℤ pos max_rows)
  clamp-limit_number s m L h =
      let (l, e, v) = L.limit_of-limit s m in
      (
        elim (Option-cases (S.limit_of s)) [
          | inl n ↦ unfold clamp in ground arith
          | inr (k, f) ↦ elim h [
            | inl n ↦ absurd (ground arith)
            | inr (n, g) ↦ unfold clamp in ground arith
          ]
        ],
        smaller-le (limit_number S s) (pos m),
      )

  -- A statement with no LIMIT, or with one that is a count of rows, is limited by a count of rows.
  pub clamp-IsCount :
      (s : S.Select) (max_rows : ℕ) (L : IsLawful S)
      → (S.limit_of s ≡ none) ⊎ L.IsCount s
      → L.IsCount (clamp S s (pos max_rows))
  unfolding clamp
  clamp-IsCount s m L (inl n) = rw (n, clamp) (L.limit-IsCount s m)
  clamp-IsCount s m L (inr h) = elim (Option-cases (S.limit_of s)) [
    | inl n ↦ rw (n, clamp) (L.limit-IsCount s m)
    | inr (k, f) ↦ elim (Bool-cases (ltb_ℤ (pos m) (requested S k (pos m)))) [
      | inl e ↦ rw (f, clamp) (rw e (L.limit-IsCount s m))
      | inr e ↦ rw (f, clamp) (rw e h)
    ]
  ]

  -- A LIMIT that does not read as a number is rendered as it stands, whatever `max_rows` is: the
  -- statement is not limited at all.
  pub apply_row_limit-unreadable :
      (s : S.Select) (l : S.Limit) (max_rows : ℤ) (dialect : Str)
      → S.limit_of s ≡ some l
      → int_of (S.limit_value l) ≡ none
      → apply_row_limit S s max_rows dialect ≡ S.sql s dialect
  unfolding apply_row_limit clamp
  apply_row_limit-unreadable s l max_rows dialect h e = ground arith
