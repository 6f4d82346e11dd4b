-- ===== src/Py/Number/Printed.antt =====
-- A printed number reads as the number that it was.
use open_warehouse_agent.Base.Int.{ℤ, pos, negsuc}
use open_warehouse_agent.Py.Str.{Str, lstrip, rstrip, decimal_from, of_ℕ}
use open_warehouse_agent.Py.Json.{of_ℤ}
use open_warehouse_agent.Py.Number.{digits, unsigned_or_signed, parse_int}
use open_warehouse_agent.Base.{
  ℕ, zero, suc, ◌+◌, ◌/◌, ◌%◌, ◌≤◌, ◌<◌, ltb, ◌≡◌, refl, inl, inr, Bool, true, false, some, [], ◌∷◌,
  arith, All, Bool-cases,
}

abbrev IsDigits : Str → Type 0
IsDigits s = All (λ c. (b'0' ≤ c) × (c ≤ b'9')) s

decimal_from-IsDigits : (fuel n : ℕ) (out : Str) → IsDigits out → IsDigits (decimal_from fuel n out)
unfolding decimal_from
decimal_from-IsDigits zero n out h = h
decimal_from-IsDigits (suc fuel) n out h = elim (Bool-cases (ltb n 10)) [
  | inl e ↦ rw e ((omega arith, ground arith), h)
  | inr e ↦ rw e (decimal_from-IsDigits fuel (n / 10) _ ((omega arith, omega arith), h))
]

rstrip-IsDigits : (s : Str) → IsDigits s → rstrip s ≡ s
unfolding rstrip
rstrip-IsDigits [] h = refl
rstrip-IsDigits (c ∷ s) (h, k) = ground (arith, rstrip-IsDigits s k)

digits-decimal_from :
    (fuel n : ℕ) (b : Bool) (out : Str)
    → n < fuel
    → digits 0 b (decimal_from fuel n out) ≡ digits n true out
unfolding digits decimal_from
digits-decimal_from zero n b out h = absurd (omega arith)
digits-decimal_from (suc fuel) n b out h = elim (Bool-cases (ltb n 10)) [
  | inl e ↦ ground arith
  | inr e ↦
      ground (arith, digits-decimal_from fuel (n / 10) b ((b'0' + n % 10) ∷ out) (ground arith))
]

parse_plain :
    (s : Str) (n : ℕ) → IsDigits s → digits 0 false s ≡ some n → parse_int s ≡ some (pos n)
unfolding parse_int lstrip unsigned_or_signed digits
parse_plain [] n h e = absurd (cc)
parse_plain (c ∷ s) n h e = ground (arith, rstrip-IsDigits (c ∷ s) h)

parse_minus :
    (s : Str) (n : ℕ)
    → IsDigits s
    → digits 0 false s ≡ some (suc n)
    → parse_int (b'-' ∷ s) ≡ some (negsuc n)
unfolding parse_int lstrip rstrip unsigned_or_signed
parse_minus s n h e = ground (arith, rstrip-IsDigits s h)

pub parse_int-of_ℤ : (n : ℤ) → parse_int (of_ℤ n) ≡ some n
unfolding of_ℤ of_ℕ digits
parse_int-of_ℤ (pos n) =
    parse_plain (of_ℕ n) n (decimal_from-IsDigits (suc n) n [] tt)
      (digits-decimal_from (suc n) n false [] (omega arith))
parse_int-of_ℤ (negsuc n) =
    parse_minus (of_ℕ (suc n)) n (decimal_from-IsDigits (suc (suc n)) (suc n) [] tt)
      (digits-decimal_from (suc (suc n)) (suc n) false [] (omega arith))
