-- ===== src/Py/Json/Readers.antt =====
-- Readers of the front of a text, and that of an integer.
use open_warehouse_agent.Base.Int.{ℤ, pos, negsuc}
use open_warehouse_agent.Py.Json.{of_ℤ}
use open_warehouse_agent.Py.Json.Scalars.{read_digits, read_digits-of_ℕ, Stops}
use open_warehouse_agent.Py.Str.{Str, of_ℕ}
use open_warehouse_agent.Base.{
  ℕ, suc, ◌==◌, ◌≡◌, ap, inl, inr, true, false, Option, none, some, [], ◌∷◌, ◌++◌, arith,
  Bool-cases,
}

abbrev pub bind : {A B : Type 0} → Option A → (A → Option B) → Option B
bind none f = none
bind (some a) f = f a

-- A reader takes the front of a text, and leaves the rest.
abbrev pub Reader : Type 0 → Type 0
Reader A = Str → Option (A × Str)

-- A reader reads what a value is written as, if the text does not go on with a digit.
abbrev pub Reads : {A : Type 0} → Reader A → A → Str → Type 0
Reads read a s = (rest : Str) → Stops rest → read (s ++ rest) ≡ some (a, rest)

unfoldable pub read_ℕ : Reader ℕ
read_ℕ s = read_digits 0 false s

abbrev negative : Option (ℕ × Str) → Option (ℤ × Str)
negative (some (suc n, t)) = some (negsuc n, t)
negative r = none

abbrev positive : Option (ℕ × Str) → Option (ℤ × Str)
positive none = none
positive (some (n, t)) = some (pos n, t)

unfoldable pub read_ℤ : Reader ℤ
unfolding read_ℕ
read_ℤ [] = none
read_ℤ (c ∷ s) = elim (c == b'-') [ true ↦ negative (read_ℕ s) | false ↦ positive (read_ℕ (c ∷ s)) ]

pub ℕ-Reads : (n : ℕ) → Reads read_ℕ n (of_ℕ n)
unfolding read_ℕ
ℕ-Reads n rest h = read_digits-of_ℕ n rest h

read_digits-positive :
    (s t : Str) (n : ℕ) → read_digits 0 false s ≡ some (n, t) → read_ℤ s ≡ some (pos n, t)
unfolding read_ℤ read_digits
read_digits-positive [] t n h = absurd (cc)
read_digits-positive (c ∷ s) t n h = elim (Bool-cases (c == b'-')) [
  | inl e ↦ absurd (ground arith)
  | inr e ↦ rw (read_ℤ, e) (ap positive h)
]

pub ℤ-Reads : (z : ℤ) → Reads read_ℤ z (of_ℤ z)
unfolding read_ℤ of_ℤ
ℤ-Reads (pos n) rest h = read_digits-positive (of_ℕ n ++ rest) rest n (read_digits-of_ℕ n rest h)
ℤ-Reads (negsuc n) rest h = ap negative (read_digits-of_ℕ (suc n) rest h)
