-- ===== src/Py/Json/Loads/Steps.antt =====
-- The reader, value by value.
use open_warehouse_agent.Base.Int.{ℤ}
use open_warehouse_agent.Py.Str.{Str, str}
use open_warehouse_agent.Py.Number.{is_digit}
use open_warehouse_agent.Py.Json.{
  Json, null, bool, int, text, array, object, Items, nil, cons, Fields, end, field, of_ℤ, quoted,
  dumps, dumps_fields,
}
use open_warehouse_agent.Py.Json.Reads.{IsScalar}
use open_warehouse_agent.Py.Json.Readers.{bind, read_ℤ, ℤ-Reads}
use open_warehouse_agent.Py.Json.Scalars.{
  expect-append, read_quoted, read_quoted-quoted, read_digits, Stops,
}
use open_warehouse_agent.Py.Json.Loads.{
  skip, read_int, has, with_field, read_value, read_other, read_items, more_items, read_fields,
  more_fields,
}
use open_warehouse_agent.Base.{
  ℕ, suc, ◌==◌, ◌≡◌, refl, ap, ◌∙◌, true, false, none, some, ◌∷◌, ◌++◌, arith, All,
}
use open_warehouse_agent.Py.Json.Loads.Starts.{Starts, skip-Starts, not_ended}

pub read_int-of_ℤ : (z : ℤ) (rest : Str) → Stops rest → read_int (of_ℤ z ++ rest) ≡ some (z, rest)
unfolding read_int
read_int-of_ℤ z rest h = rw (ℤ-Reads z rest h) (rw (expect-append (of_ℤ z) rest) refl)

not_int : (c : ℕ) (s : Str) → (c == b'-') ≡ false → is_digit c ≡ false → read_int (c ∷ s) ≡ none
unfolding read_int read_ℤ read_digits
not_int c s h k = ground arith

pub value-int :
    (z : ℤ) (n : ℕ) (s t : Str) → read_int s ≡ some (z, t) → read_value (suc n) s ≡ some (int z, t)
unfolding read_value
value-int z n s t h = rw (read_value, h) refl

value-other :
    (n c : ℕ) (s : Str)
    → (c == b'-') ≡ false
    → is_digit c ≡ false
    → read_value (suc n) (c ∷ s) ≡ read_other n (c ∷ s)
unfolding read_value
value-other n c s h k = rw (read_value, not_int c s h k) refl

pub value-null :
    (n : ℕ) (rest : Str) → read_value (suc (suc n)) (str "null" ++ rest) ≡ some (null, rest)
unfolding read_value
value-null n rest = value-other (suc n) b'n' (str "ull" ++ rest) refl refl

pub value-true :
    (n : ℕ) (rest : Str) → read_value (suc (suc n)) (str "true" ++ rest) ≡ some (bool true, rest)
unfolding read_value
value-true n rest = value-other (suc n) b't' (str "rue" ++ rest) refl refl

pub value-false :
    (n : ℕ) (rest : Str) → read_value (suc (suc n)) (str "false" ++ rest) ≡ some (bool false, rest)
unfolding read_value
value-false n rest = value-other (suc n) b'f' (str "alse" ++ rest) refl refl

pub value-text :
    (s : Str) (n : ℕ) (rest : Str)
    → All IsScalar s
    → read_value (suc (suc n)) (quoted s ++ rest) ≡ some (text s, rest)
unfolding read_value quoted
value-text s n rest h =
    value-other (suc n) b'"' _ refl refl
    ∙ ap (λ o. bind o (λ (t, u). some (text t, u))) (read_quoted-quoted s rest h)

pub value-array :
    (xs : Items) (n : ℕ) (s rest : Str)
    → read_items n (skip s) ≡ some (xs, rest)
    → read_value (suc (suc n)) (b'[' ∷ s) ≡ some (array xs, rest)
unfolding read_value
value-array xs n s rest h =
    value-other (suc n) b'[' s refl refl ∙ ap (λ o. bind o (λ (xs, u). some (array xs, u))) h

pub value-object :
    (fs : Fields) (n : ℕ) (s rest : Str)
    → read_fields n (skip s) ≡ some (fs, rest)
    → read_value (suc (suc n)) (b'{' ∷ s) ≡ some (object fs, rest)
unfolding read_value
value-object fs n s rest h =
    value-other (suc n) b'{' s refl refl ∙ ap (λ o. bind o (λ (fs, u). some (object fs, u))) h

-- An item and what follows it: the end of the array, or a comma and the next item.
pub more-last :
    (x : Json) (n : ℕ) (s rest : Str)
    → read_value n s ≡ some (x, b']' ∷ rest)
    → more_items (suc n) s ≡ some (cons x nil, rest)
unfolding read_value skip
more-last x n s rest h = rw (more_items, h) refl

pub more-next :
    (x : Json) (xs : Items) (n : ℕ) (s t rest : Str)
    → read_value n s ≡ some (x, b',' ∷ b' ' ∷ t)
    → skip t ≡ t
    → more_items n t ≡ some (xs, rest)
    → more_items (suc n) s ≡ some (cons x xs, rest)
unfolding read_value skip
more-next x xs n s t rest h k l = rw (more_items, h) (rw k (rw l refl))

pub fields-last :
    (key : Str) (x : Json) (n : ℕ) (s t rest : Str)
    → read_quoted s ≡ some (key, b':' ∷ b' ' ∷ t)
    → skip t ≡ t
    → read_value n t ≡ some (x, b'}' ∷ rest)
    → more_fields (suc n) s ≡ some (field key x end, rest)
unfolding read_value skip
fields-last key x n s t rest h k l = rw (more_fields, h) (rw k (rw l refl))

pub fields-next :
    (key : Str) (x : Json) (fs : Fields) (n : ℕ) (s t u rest : Str)
    → read_quoted s ≡ some (key, b':' ∷ b' ' ∷ t)
    → skip t ≡ t
    → read_value n t ≡ some (x, b',' ∷ b' ' ∷ u)
    → skip u ≡ u
    → more_fields n u ≡ some (fs, rest)
    → has key fs ≡ false
    → more_fields (suc n) s ≡ some (field key x fs, rest)
unfolding read_value skip
fields-next key x fs n s t u rest h k l m o p =
    rw (more_fields, h) (rw k (rw l (rw m (rw o (rw (with_field, p) refl)))))

pub no_items : (n : ℕ) (rest : Str) → read_items (suc n) (skip (b']' ∷ rest)) ≡ some (nil, rest)
unfolding read_value skip
no_items n rest = refl

pub no_fields : (n : ℕ) (rest : Str) → read_fields (suc n) (skip (b'}' ∷ rest)) ≡ some (end, rest)
unfolding read_value skip
no_fields n rest = refl

pub some_items :
    (n : ℕ) (s rest : Str)
    → Starts s
    → read_items (suc n) (skip (s ++ rest)) ≡ more_items n (s ++ rest)
unfolding read_value
some_items n s rest h = rw (skip-Starts s rest h) (rw (read_items, not_ended s rest h) refl)

pub some_fields :
    (n : ℕ) (k : Str) (x : Json) (fs : Fields) (rest : Str)
    → read_fields (suc n) (skip (dumps_fields (field k x fs) ++ rest))
      ≡ more_fields n (dumps_fields (field k x fs) ++ rest)
unfolding read_value skip dumps quoted
some_fields n k x end rest = refl
some_fields n k x (field l y fs) rest = refl
