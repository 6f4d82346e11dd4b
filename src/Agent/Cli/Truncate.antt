-- ===== src/Agent/Cli/Truncate.antt =====
-- What `_truncate` leaves of a text.
use open_warehouse_agent.Py.Str.{Str}
use open_warehouse_agent.Agent.Cli.{truncate}
use open_warehouse_agent.Base.{
  ℕ, zero, suc, ◌≤◌, ◌<◌, leb, ◌≡◌, refl, ap, ◌∙◌, ◌⊎◌, inl, inr, false, [], ◌∷◌, ◌++◌, arith,
  length, take, length-append, length-take, Bool-cases, leb→le,
}

take-length : (n : ℕ) (s : Str) → length s ≤ n → take n s ≡ s
take-length zero [] h = refl
take-length zero (c ∷ s) h = absurd (omega arith)
take-length (suc n) [] h = refl
take-length (suc n) (c ∷ s) h = ap (λ t. c ∷ t) (take-length n s (omega arith))

take-append : (n : ℕ) (s t : Str) → n ≤ length s → take n (s ++ t) ≡ take n s
take-append zero s t h = refl
take-append (suc n) [] t h = absurd (omega arith)
take-append (suc n) (c ∷ s) t h = ap (λ t. c ∷ t) (take-append n s t (omega arith))

take-take : (n : ℕ) (s : Str) → take n (take n s) ≡ take n s
take-take zero s = refl
take-take (suc n) [] = refl
take-take (suc n) (c ∷ s) = ap (λ t. c ∷ t) (take-take n s)

-- With a limit of at least 1, a text within the limit is left alone; any other becomes a text of
-- exactly the limit's length that begins with the same limit - 1 characters.
pub truncate_lem :
    (s : Str) (n : ℕ)
    → ((length s ≤ suc n) × (truncate s (suc n) ≡ s))
      ⊎ ((suc n < length s)
          × (length (truncate s (suc n)) ≡ suc n)
          × (take n (truncate s (suc n)) ≡ take n s))
truncate_lem s n = elim (Bool-cases (leb (length s) (suc n))) [
  | inl e ↦ inl (leb→le _ _ e, unfold truncate in rw e)
  | inr e ↦ inr (
    ground arith,
    unfold truncate in
        rw e (omega (arith, length-append (take n s) (0x2026 ∷ []), length-take n s, long e)),
    unfold truncate in
        rw e (
          take-append n (take n s) (0x2026 ∷ []) (omega (arith, length-take n s, long e))
          ∙ take-take n s),
  )
]
  where
    long : leb (length s) (suc n) ≡ false → suc n < length s
    long e = ground arith
