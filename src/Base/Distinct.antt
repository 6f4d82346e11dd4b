-- ===== src/Base/Distinct.antt =====
-- Lists of numbers: membership, repetition, and 1, 2, ..., n.
use Prim.Native.Nat.{ℕ, zero, suc, ◌+◌, ◌≤◌, ◌<◌}
use mathlib.Core.Path.{◌≡◌, refl}
use mathlib.Core.Bool.{Bool, true, false, not, ◌&&◌, ◌||◌}
use mathlib.Core.List.{List, [], ◌∷◌, ◌++◌, append_assoc, append-nil}
use native.Mathlib.Omega.{arith}
use open_warehouse_agent.Base.Lists.{All, All-append, All-map, length, length-append}
use open_warehouse_agent.Base.Tests.{◌==◌}

abbrev pub contains : ℕ → List ℕ → Bool
contains y [] = false
contains y (x ∷ xs) = x == y || contains y xs

-- No number is there twice.
abbrev pub distinct : List ℕ → Bool
distinct [] = true
distinct (x ∷ xs) = not (contains x xs) && distinct xs

-- 1, 2, ..., n
unfoldable pub count : ℕ → List ℕ
count zero = []
count (suc n) = count n ++ (suc n ∷ [])

-- i, i + 1, ..., n of them
unfoldable pub from : ℕ → ℕ → List ℕ
from i zero = []
from i (suc n) = i ∷ from (i + 1) n

pub contains-append :
    (y : ℕ) (xs ys : List ℕ) → contains y (xs ++ ys) ≡ (contains y xs || contains y ys)
contains-append y [] ys = refl
contains-append y (x ∷ xs) ys = ground (arith, contains-append y xs ys)

pub not_contains_above :
    (n y : ℕ) (xs : List ℕ) → All (λ x. x ≤ n) xs → n < y → contains y xs ≡ false
not_contains_above n y [] h l = refl
not_contains_above n y (x ∷ xs) (p, h) l = ground (arith, not_contains_above n y xs h l)

pub distinct-append_last :
    (xs : List ℕ) (y : ℕ)
    → distinct xs ≡ true
    → contains y xs ≡ false
    → distinct (xs ++ (y ∷ [])) ≡ true
distinct-append_last [] y h n = refl
distinct-append_last (x ∷ xs) y h n =
    ground (arith, distinct-append_last xs y, contains-append x xs (y ∷ []))

pub count-le : (n : ℕ) → All (λ x. x ≤ n) (count n)
unfolding count
count-le zero = tt
count-le (suc n) =
    All-append (λ x. x ≤ suc n) (count n) (suc n ∷ [])
      (All-map (λ x. x ≤ n) (λ x. x ≤ suc n) (count n) (λ x h. omega (arith, h)) (count-le n))
      (omega arith, tt)

pub distinct-count : (n : ℕ) → distinct (count n) ≡ true
unfolding count
distinct-count zero = refl
distinct-count (suc n) =
    distinct-append_last (count n) (suc n) (distinct-count n)
      (not_contains_above n (suc n) (count n) (count-le n) (omega arith))

pub contains-count : (p n : ℕ) → 1 ≤ p → p ≤ n → contains p (count n) ≡ true
unfolding count
contains-count p zero l u = absurd (omega arith)
contains-count p (suc n) l u =
    ground (arith, contains-append p (count n) (suc n ∷ []), contains-count p n l)

pub length-count : (n : ℕ) → length (count n) ≡ n
unfolding count
length-count zero = refl
length-count (suc n) = omega (arith, length-append (count n) (suc n ∷ []), length-count n)

count_step : (k : ℕ) → count (suc k) ≡ count k ++ (suc k ∷ [])
unfolding count
count_step k = refl

count_from : (k i n t : ℕ) → i ≡ suc k → k + n ≡ t → count k ++ from i n ≡ count t
unfolding from
count_from k i zero t e f = ground (arith, append-nil (count k))
count_from k i (suc n) t e f = ground (
  arith,
  count_step k,
  count_from (suc k) (i + 1) n t (omega arith) (omega arith),
  append_assoc (count k) (i ∷ []) (from (i + 1) n),
)

pub from_one : (n : ℕ) → from 1 n ≡ count n
unfolding count
from_one n = count_from 0 1 n n refl (omega arith)
