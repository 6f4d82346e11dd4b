-- ===== src/Py/Json/Loads/RoundTrip.antt =====
-- What `json.dumps` writes reads as the value that it was given.
use open_warehouse_agent.Py.Str.{Str, str}
use open_warehouse_agent.Py.Json.{
  Json, null, bool, int, text, array, object, Items, nil, cons, Fields, end, field, of_ℤ, quoted,
  dumps, dumps_items, dumps_fields,
}
use open_warehouse_agent.Py.Json.Reads.{IsScalar}
use open_warehouse_agent.Py.Json.Scalars.{read_quoted-quoted, Stops}
use open_warehouse_agent.Py.Json.Loads.{
  skip, has, read_value, read_items, more_items, read_fields, more_fields, whole, read_json,
}
use open_warehouse_agent.Base.{
  ℕ, zero, suc, ◌+◌, ◌*◌, ◌≤◌, ◌≡◌, refl, sym, ap, ◌∙◌, true, false, some, [], ◌∷◌, ◌++◌,
  append_assoc, append-nil, arith, length, All,
}
use open_warehouse_agent.Py.Json.Loads.Starts.{
  dumps-Starts, skip-Starts, items-Starts, fields-Starts,
}
use open_warehouse_agent.Py.Json.Loads.Fuel.{size, items_size, fields_size, size-two, size-bound}
use open_warehouse_agent.Py.Json.Loads.Steps.{
  read_int-of_ℤ, value-int, value-null, value-true, value-false, value-text, value-array,
  value-object, more-last, more-next, fields-last, fields-next, no_items, no_fields, some_items,
  some_fields,
}

-- The texts of a value have no surrogates, and no object in it has a key twice.
unfoldable mutual
  unfolding has

  pub IsPlain : Json → Type 0
  IsPlain (text s) = All IsScalar s
  IsPlain (array xs) = ArePlain xs
  IsPlain (object fs) = HasPlain fs
  IsPlain j = Unit

  pub ArePlain : Items → Type 0
  ArePlain nil = Unit
  ArePlain (cons x xs) = IsPlain x × ArePlain xs

  pub HasPlain : Fields → Type 0
  HasPlain end = Unit
  HasPlain (field k x fs) = (All IsScalar k × (has k fs ≡ false)) × (IsPlain x × HasPlain fs)

-- A text of three parts and one of five, followed by another.
assoc_3 : (a b c rest : Str) → (a ++ b ++ c) ++ rest ≡ a ++ (b ++ (c ++ rest))
assoc_3 a b c rest = append_assoc (a ++ b) c rest ∙ append_assoc a b (c ++ rest)

assoc_5 :
    (a b c d e rest : Str) → (a ++ b ++ c ++ d ++ e) ++ rest ≡ a ++ (b ++ (c ++ (d ++ (e ++ rest))))
assoc_5 a b c d e rest = assoc_3 (a ++ b ++ c) d e rest ∙ assoc_3 a b c (d ++ (e ++ rest))

mutual
  unfolding dumps size IsPlain

  value-Reads :
      (j : Json) (n : ℕ) (rest : Str)
      → size j ≤ n
      → IsPlain j
      → Stops rest
      → read_value n (dumps j ++ rest) ≡ some (j, rest)
  value-Reads j zero rest h p k = absurd (omega (arith, h, size-two j))
  value-Reads j (suc zero) rest h p k = absurd (omega (arith, h, size-two j))
  value-Reads null (suc (suc n)) rest h p k = value-null n rest
  value-Reads (bool true) (suc (suc n)) rest h p k = value-true n rest
  value-Reads (bool false) (suc (suc n)) rest h p k = value-false n rest
  value-Reads (int z) (suc (suc n)) rest h p k =
      value-int z (suc n) (of_ℤ z ++ rest) rest (read_int-of_ℤ z rest k)
  value-Reads (text s) (suc (suc n)) rest h p k = value-text s n rest p
  value-Reads (array xs) (suc (suc n)) rest h p k =
      value-array xs n ((dumps_items xs ++ (b']' ∷ [])) ++ rest) rest (
        ap (λ s. read_items n (skip s)) (append_assoc (dumps_items xs) (b']' ∷ []) rest)
        ∙ items-Reads xs n rest (omega (arith, h)) p)
  value-Reads (object fs) (suc (suc n)) rest h p k =
      value-object fs n ((dumps_fields fs ++ (b'}' ∷ [])) ++ rest) rest (
        ap (λ s. read_fields n (skip s)) (append_assoc (dumps_fields fs) (b'}' ∷ []) rest)
        ∙ fields-Reads fs n rest (omega (arith, h)) p)

  items-Reads :
      (xs : Items) (n : ℕ) (rest : Str)
      → 1 + items_size xs ≤ n
      → ArePlain xs
      → read_items n (skip (dumps_items xs ++ (b']' ∷ rest))) ≡ some (xs, rest)
  items-Reads xs zero rest h p = absurd (omega (arith, h))
  items-Reads nil (suc n) rest h p = no_items n rest
  items-Reads (cons x xs) (suc n) rest h (p, q) =
      some_items n (dumps_items (cons x xs)) (b']' ∷ rest) (items-Starts x xs)
      ∙ more-Reads x xs n rest (omega (arith, h)) p q

  more-Reads :
      (x : Json) (xs : Items) (n : ℕ) (rest : Str)
      → items_size (cons x xs) ≤ n
      → IsPlain x
      → ArePlain xs
      → more_items n (dumps_items (cons x xs) ++ (b']' ∷ rest)) ≡ some (cons x xs, rest)
  more-Reads x xs zero rest h p q = absurd (omega (arith, h))
  more-Reads x nil (suc n) rest h p q =
      more-last x n _ rest (value-Reads x n (b']' ∷ rest) (omega (arith, h)) p refl)
  more-Reads x (cons y ys) (suc n) rest h p (q, r) =
      let after = dumps_items (cons y ys) ++ (b']' ∷ rest) in
      ap (more_items (suc n)) (assoc_3 (dumps x) (str ", ") (dumps_items (cons y ys)) (b']' ∷ rest))
      ∙ more-next x (cons y ys) n _ after rest
          (value-Reads x n (str ", " ++ after) (omega (arith, h)) p refl)
          (skip-Starts (dumps_items (cons y ys)) (b']' ∷ rest) (items-Starts y ys))
          (more-Reads y ys n rest (omega (arith, h)) q r)

  fields-Reads :
      (fs : Fields) (n : ℕ) (rest : Str)
      → 1 + fields_size fs ≤ n
      → HasPlain fs
      → read_fields n (skip (dumps_fields fs ++ (b'}' ∷ rest))) ≡ some (fs, rest)
  fields-Reads fs zero rest h p = absurd (omega (arith, h))
  fields-Reads end (suc n) rest h p = no_fields n rest
  fields-Reads (field k x fs) (suc n) rest h p =
      some_fields n k x fs (b'}' ∷ rest) ∙ named-Reads k x fs n rest (omega (arith, h)) p

  named-Reads :
      (k : Str) (x : Json) (fs : Fields) (n : ℕ) (rest : Str)
      → fields_size (field k x fs) ≤ n
      → HasPlain (field k x fs)
      → more_fields n (dumps_fields (field k x fs) ++ (b'}' ∷ rest)) ≡ some (field k x fs, rest)
  named-Reads k x fs zero rest h p = absurd (omega (arith, h))
  named-Reads k x end (suc n) rest h ((pk, new), (px, pf)) =
      let value = dumps x ++ (b'}' ∷ rest) in
      ap (more_fields (suc n)) (assoc_3 (quoted k) (str ": ") (dumps x) (b'}' ∷ rest))
      ∙ fields-last k x n _ value rest (read_quoted-quoted k (str ": " ++ value) pk)
          (skip-Starts (dumps x) (b'}' ∷ rest) (dumps-Starts x))
          (value-Reads x n (b'}' ∷ rest) (omega (arith, h)) px refl)
  named-Reads k x (field l y fs) (suc n) rest h ((pk, new), (px, pf)) =
      let others = dumps_fields (field l y fs) in
      let after = others ++ (b'}' ∷ rest) in
      let value = dumps x ++ (str ", " ++ after) in
      ap (more_fields (suc n))
        (assoc_5 (quoted k) (str ": ") (dumps x) (str ", ") others (b'}' ∷ rest))
      ∙ fields-next k x (field l y fs) n _ value after rest
          (read_quoted-quoted k (str ": " ++ value) pk)
          (skip-Starts (dumps x) (str ", " ++ after) (dumps-Starts x))
          (value-Reads x n (str ", " ++ after) (omega (arith, h)) px refl)
          (skip-Starts others (b'}' ∷ rest) (fields-Starts l y fs))
          (named-Reads l y fs n rest (omega (arith, h)) pf) new

-- What `json.dumps` writes reads as the value that it was given, whatever its texts hold, if they have
-- no surrogates and no object has a key twice.
pub read_json-dumps : (j : Json) → IsPlain j → read_json (dumps j) ≡ some j
unfolding read_json
read_json-dumps j h = ap whole start ∙ (unfold skip in refl)
  where
    start : read_value (3 * length (dumps j)) (skip (dumps j)) ≡ some (j, [])
    start =
        ap (λ s. read_value (3 * length (dumps j)) (skip s)) (sym (append-nil (dumps j)))
        ∙ ap (read_value (3 * length (dumps j))) (skip-Starts (dumps j) [] (dumps-Starts j))
        ∙ value-Reads j (3 * length (dumps j)) [] (size-bound j) h tt
