-- ===== src/Py/Json/Loads.antt =====
-- Reading JSON texts: what `json.loads` makes of them, for values whose numbers are integers and
-- whose objects have no key twice. A text that this reader refuses is one of which nothing is said.
pub mod Starts
pub mod Fuel
pub mod Steps
pub mod RoundTrip
use open_warehouse_agent.Base.Int.{ℤ, negsuc}
use open_warehouse_agent.Py.Str.{of_ℕ, Str, str, str_eq}
use open_warehouse_agent.Py.Json.{
  Json, null, bool, int, text, array, object, Items, nil, cons, Fields, end, field, of_ℤ,
}
use open_warehouse_agent.Py.Json.Readers.{bind, Reader, read_ℤ}
use open_warehouse_agent.Py.Json.Reads.{read_char, read_escape}
use open_warehouse_agent.Py.Json.Scalars.{read_digits, read_text, expect, read_quoted}
use open_warehouse_agent.Base.{
  ℕ, zero, suc, ◌*◌, ◌==◌, ◌≡◌, refl, Bool, true, false, ◌||◌, Option, none, some, [], ◌∷◌, length,
}

abbrev pub is_white : ℕ → Bool
is_white c = c == 32 || c == 9 || c == 10 || c == 13

-- White space may stand around every value and sign.
unfoldable pub skip : Str → Str
skip [] = []
skip (c ∷ s) = elim (is_white c) [ true ↦ skip s | false ↦ c ∷ s ]

-- An integer, as it is printed: with no zero before other digits, and no sign but a minus.
unfoldable pub read_int : Reader ℤ
read_int s = bind (read_ℤ s) λ (z, t). bind (expect (of_ℤ z) s) λ u. some (z, u)

abbrev pub named : Str → Json → Reader Json
named word j s = bind (expect word s) λ t. some (j, t)

unfoldable pub has : Str → Fields → Bool
has k end = false
has k (field l x fs) = str_eq k l || has k fs

abbrev pub with_field : Str → Json → Option (Fields × Str) → Option (Fields × Str)
with_field k x none = none
with_field k x (some (fs, s)) = elim (has k fs) [ true ↦ none | false ↦ some (field k x fs, s) ]

-- The fuel bounds how many values, items and fields stand within or after one another.
unfoldable mutual
  unfolding skip read_int has

  pub read_value : ℕ → Reader Json
  read_value zero s = none
  read_value (suc n) s = elim (read_int s) [ some r ↦ some (int r.0, r.1) | none ↦ read_other n s ]

  pub read_other : ℕ → Reader Json
  read_other zero s = none
  read_other (suc n) [] = none
  read_other (suc n) (c ∷ s) = elim (c == b'"') [
    | true ↦ bind (read_quoted (c ∷ s)) λ (t, u). some (text t, u)
    | false ↦ elim (c == b'[') [
      | true ↦ bind (read_items n (skip s)) λ (xs, u). some (array xs, u)
      | false ↦ elim (c == b'{') [
        | true ↦ bind (read_fields n (skip s)) λ (fs, u). some (object fs, u)
        | false ↦ elim (c == b'n') [
          | true ↦ named (str "ull") null s
          | false ↦ elim (c == b't') [
            | true ↦ named (str "rue") (bool true) s
            | false ↦ named (str "false") (bool false) (c ∷ s)
          ]
        ]
      ]
    ]
  ]

  -- The items of an array, after its bracket and the white space.
  pub read_items : ℕ → Reader Items
  read_items zero s = none
  read_items (suc n) s = elim (expect (str "]") s) [
    | some t ↦ some (nil, t)
    | none ↦ more_items n s
  ]

  pub more_items : ℕ → Reader Items
  more_items zero s = none
  more_items (suc n) s = bind (read_value n s) λ (x, t). elim (expect (str "]") (skip t)) [
    | some u ↦ some (cons x nil, u)
    | none ↦
        bind (expect (str ",") (skip t))
          λ u. bind (more_items n (skip u)) λ (xs, v). some (cons x xs, v)
  ]

  -- The fields of an object, after its brace and the white space.
  pub read_fields : ℕ → Reader Fields
  read_fields zero s = none
  read_fields (suc n) s = elim (expect (str "}") s) [
    | some t ↦ some (end, t)
    | none ↦ more_fields n s
  ]

  pub more_fields : ℕ → Reader Fields
  more_fields zero s = none
  more_fields (suc n) s = bind (read_quoted s) λ (k, t). bind (expect (str ":") (skip t)) λ u.
      bind (read_value n (skip u)) λ (x, v). elim (expect (str "}") (skip v)) [
        | some w ↦ some (field k x end, w)
        | none ↦ bind (expect (str ",") (skip v)) λ w. with_field k x (more_fields n (skip w))
      ]

abbrev whole : Option (Json × Str) → Option Json
whole none = none
whole (some (j, s)) = elim (skip s) [ [] ↦ some j | c ∷ t ↦ none ]

-- A whole text, on three times its length as fuel.
unfoldable pub read_json : Str → Option Json
unfolding read_value
read_json s = whole (read_value (3 * length s) (skip s))

read_json_test :
    read_json (str " { \"a\" : [-12,true , null],\n\"b\":\"x\\\"y\"}")
    ≡ some (
        object (
          field
            (str "a")
            (array (cons (int (negsuc 11)) (cons (bool true) (cons null nil))))
            (field (str "b") (text (str "x\"y")) end)))
unfolding read_json read_ℤ read_digits of_ℤ of_ℕ read_quoted read_text read_char read_escape
read_json_test = refl

read_json_refused :
    (read_json (str "007") ≡ none)
    × (read_json (str "1.5") ≡ none)
    × (read_json (str "[1,]") ≡ none)
    × (read_json (str "{\"a\":1,\"a\":2}") ≡ none)
unfolding read_json read_ℤ read_digits of_ℤ of_ℕ read_quoted read_text read_char
read_json_refused = (refl, refl, refl, refl)
