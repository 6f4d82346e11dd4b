-- ===== src/Py/Json/Loads/Fuel.antt =====
-- The fuel that a reader needs for a dumped value.
use open_warehouse_agent.Py.Str.{Str, str}
use open_warehouse_agent.Py.Json.{
  Json, null, bool, int, text, array, object, Items, nil, cons, Fields, end, field, quoted, dumps,
  dumps_items, dumps_fields,
}
use open_warehouse_agent.Base.{
  ℕ, ◌+◌, ◌*◌, ◌≤◌, ◌≡◌, true, false, [], ◌∷◌, ◌++◌, arith, length, length-append,
}
use open_warehouse_agent.Py.Json.Loads.Starts.{Starts, dumps-Starts}

-- The fuel that a value takes.
unfoldable mutual
  pub size : Json → ℕ
  size (array xs) = 3 + items_size xs
  size (object fs) = 3 + fields_size fs
  size j = 2

  pub items_size : Items → ℕ
  items_size nil = 0
  items_size (cons x xs) = 1 + size x + items_size xs

  pub fields_size : Fields → ℕ
  fields_size end = 0
  fields_size (field k x fs) = 1 + size x + fields_size fs

pub size-two : (j : Json) → 2 ≤ size j
unfolding size
size-two (array xs) = omega arith
size-two (object fs) = omega arith
size-two j = omega arith

not_empty : (s : Str) → Starts s → 1 ≤ length s
not_empty [] h = absurd h
not_empty (c ∷ s) h = omega arith

length_3 : (a b c : Str) → length (a ++ b ++ c) ≡ length a + length b + length c
length_3 a b c = omega (arith, length-append (a ++ b) c, length-append a b)

mutual
  unfolding dumps size

  value-bound : (j : Json) → size j ≤ 3 * length (dumps j)
  value-bound null = omega arith
  value-bound (bool true) = omega arith
  value-bound (bool false) = omega arith
  value-bound (int z) = omega (arith, not_empty (dumps (int z)) (dumps-Starts (int z)))
  value-bound (text s) = omega (arith, not_empty (dumps (text s)) (dumps-Starts (text s)))
  value-bound (array xs) = omega (arith, length-append (dumps_items xs) (str "]"), items-bound xs)
  value-bound (object fs) =
      omega (arith, length-append (dumps_fields fs) (str "}"), fields-bound fs)

  items-bound : (xs : Items) → items_size xs ≤ 1 + 3 * length (dumps_items xs)
  items-bound nil = omega arith
  items-bound (cons x nil) = omega (arith, value-bound x)
  items-bound (cons x (cons y ys)) = omega (
    arith,
    length_3 (dumps x) (str ", ") (dumps_items (cons y ys)),
    value-bound x,
    items-bound (cons y ys),
  )

  fields-bound : (fs : Fields) → fields_size fs ≤ 1 + 3 * length (dumps_fields fs)
  fields-bound end = omega arith
  fields-bound (field k x end) =
      omega (arith, length_3 (quoted k) (str ": ") (dumps x), value-bound x)
  fields-bound (field k x (field l y fs)) = omega (
    arith,
    length_3 (quoted k ++ str ": " ++ dumps x) (str ", ") (dumps_fields (field l y fs)),
    length_3 (quoted k) (str ": ") (dumps x),
    value-bound x,
    fields-bound (field l y fs),
  )

-- Three times its length is fuel enough for a dumped value.
pub size-bound : (j : Json) → size j ≤ 3 * length (dumps j)
size-bound j = value-bound j
