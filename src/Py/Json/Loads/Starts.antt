-- ===== src/Py/Json/Loads/Starts.antt =====
-- How a dumped value begins.
use open_warehouse_agent.Base.Int.{pos, negsuc}
use open_warehouse_agent.Py.Str.{Str, str, of_ℕ}
use open_warehouse_agent.Py.Number.{is_digit}
use open_warehouse_agent.Py.Json.{
  Json, null, bool, int, text, array, object, Items, nil, cons, Fields, end, field, quoted, dumps,
  dumps_items, dumps_fields,
}
use open_warehouse_agent.Py.Json.Scalars.{expect, read_digits, read_digits-of_ℕ}
use open_warehouse_agent.Py.Json.Loads.{is_white, skip}
use open_warehouse_agent.Base.{
  ℕ, ◌==◌, ◌≡◌, refl, inl, inr, true, false, none, some, [], ◌∷◌, ◌++◌, arith, Bool-cases,
}

-- A first character that is neither white space nor the end of an array.
abbrev pub IsStart : ℕ → Type 0
IsStart c = (is_white c ≡ false) × ((b']' == c) ≡ false)

abbrev pub Starts : Str → Type 0
Starts [] = ⊥
Starts (c ∷ s) = IsStart c

digits-Starts : (s : Str) (n : ℕ) → read_digits 0 false (s ++ []) ≡ some (n, []) → Starts s
unfolding read_digits
digits-Starts [] n h = absurd (cc)
digits-Starts (c ∷ s) n h = elim (Bool-cases (is_digit c)) [
  | inl e ↦ (ground arith, ground arith)
  | inr e ↦ absurd (ground arith)
]

pub dumps-Starts : (j : Json) → Starts (dumps j)
unfolding dumps
dumps-Starts null = (refl, refl)
dumps-Starts (bool true) = (refl, refl)
dumps-Starts (bool false) = (refl, refl)
dumps-Starts (int (pos n)) = digits-Starts (of_ℕ n) n (read_digits-of_ℕ n [] tt)
dumps-Starts (int (negsuc n)) = (refl, refl)
dumps-Starts (text s) = (refl, refl)
dumps-Starts (array xs) = (refl, refl)
dumps-Starts (object fs) = (refl, refl)

pub skip-Starts : (s rest : Str) → Starts s → skip (s ++ rest) ≡ s ++ rest
unfolding skip
skip-Starts [] rest h = absurd h
skip-Starts (c ∷ s) rest (h, k) = rw (skip, h) refl

pub not_ended : (s rest : Str) → Starts s → expect (str "]") (s ++ rest) ≡ none
not_ended [] rest h = absurd h
not_ended (c ∷ s) rest (h, k) = rw (expect, k) refl

pub Starts-append : (s t : Str) → Starts s → Starts (s ++ t)
Starts-append [] t h = absurd h
Starts-append (c ∷ s) t h = h

pub items-Starts : (x : Json) (xs : Items) → Starts (dumps_items (cons x xs))
unfolding dumps
items-Starts x nil = dumps-Starts x
items-Starts x (cons y ys) =
    Starts-append (dumps x ++ str ", ") (dumps_items (cons y ys))
      (Starts-append (dumps x) (str ", ") (dumps-Starts x))

pub fields-Starts : (k : Str) (x : Json) (fs : Fields) → Starts (dumps_fields (field k x fs))
unfolding dumps quoted
fields-Starts k x end = (refl, refl)
fields-Starts k x (field l y fs) = (refl, refl)
