-- ===== src/Py/Json/Printable.antt =====
-- A dumped value is printable ASCII, so it stands on one line.
use open_warehouse_agent.Base.Int.{ℤ, pos, negsuc}
use open_warehouse_agent.Py.Str.{Str, str, of_ℕ, decimal_from}
use open_warehouse_agent.Py.Json.{
  Json, null, bool, int, text, array, object, Items, nil, cons, Fields, end, field, hex,
  unicode_escape, escape, escape_all, quoted, of_ℤ, dumps, dumps_items, dumps_fields,
}
use open_warehouse_agent.Base.{
  ℕ, zero, suc, ◌+◌, ◌/◌, ◌%◌, ◌≤◌, ltb, leb, ◌==◌, if◌then◌else◌, ◌≡◌, refl, inl, inr, Bool, true,
  false, ◌&&◌, [], ◌∷◌, ◌++◌, arith, All, All-append, Bool-cases, ltb→lt,
}

abbrev pub IsPrintable : ℕ → Type 0
IsPrintable c = (32 ≤ c) × (c ≤ 126)

abbrev pub OnOneLine : Str → Type 0
OnOneLine = All IsPrintable

joined : (s t : Str) → OnOneLine s → OnOneLine t → OnOneLine (s ++ t)
joined s t = All-append IsPrintable s t

decimal_from-OnOneLine :
    (fuel n : ℕ) (out : Str) → OnOneLine out → OnOneLine (decimal_from fuel n out)
unfolding decimal_from
decimal_from-OnOneLine zero n out h = h
decimal_from-OnOneLine (suc fuel) n out h = elim (Bool-cases (ltb n 10)) [
  | inl small ↦ rw small (omega (arith, ltb→lt n 10 small), h)
  | inr large ↦
      rw large (decimal_from-OnOneLine fuel (n / 10) ((b'0' + n % 10) ∷ out) (omega arith, h))
]

of_ℕ-OnOneLine : (n : ℕ) → OnOneLine (of_ℕ n)
unfolding of_ℕ
of_ℕ-OnOneLine n = decimal_from-OnOneLine (suc n) n [] tt

of_ℤ-OnOneLine : (z : ℤ) → OnOneLine (of_ℤ z)
unfolding of_ℤ
of_ℤ-OnOneLine (pos n) = of_ℕ-OnOneLine n
of_ℤ-OnOneLine (negsuc n) = (omega arith, of_ℕ-OnOneLine (suc n))

hex-IsPrintable : (d : ℕ) → IsPrintable (hex d)
unfolding hex
hex-IsPrintable d = ground arith

unicode_escape-OnOneLine : (c : ℕ) → OnOneLine (unicode_escape c)
unfolding unicode_escape
unicode_escape-OnOneLine c = (
  omega arith,
  (
    omega arith,
    (
      hex-IsPrintable (c / 4096),
      (hex-IsPrintable (c / 256), (hex-IsPrintable (c / 16), (hex-IsPrintable c, tt))),
    ),
  ),
)

-- One step of the tests in `escape`.
if-OnOneLine :
    (b : Bool) (s t : Str)
    → (b ≡ true → OnOneLine s)
    → (b ≡ false → OnOneLine t)
    → OnOneLine (if b then s else t)
if-OnOneLine true s t hs ht = hs refl
if-OnOneLine false s t hs ht = ht refl

escape-OnOneLine : (c : ℕ) → OnOneLine (escape c)
unfolding escape
escape-OnOneLine c =
    if-OnOneLine (c == b'"') _ _ (λ _. omega arith)
      λ _.
        if-OnOneLine (c == b'\\') _ _ (λ _. omega arith)
          λ _.
            if-OnOneLine (leb 32 c && leb c 126) _ _ (λ h. ground arith)
              λ _.
                if-OnOneLine (c == 10) _ _ (λ _. omega arith)
                  λ _.
                    if-OnOneLine (c == 13) _ _ (λ _. omega arith)
                      λ _.
                        if-OnOneLine (c == 9) _ _ (λ _. omega arith)
                          λ _.
                            if-OnOneLine (c == 12) _ _ (λ _. omega arith)
                              λ _.
                                if-OnOneLine (c == 8) _ _ (λ _. omega arith)
                                  λ _.
                                    if-OnOneLine (ltb c 0x10000) _ _
                                      (λ _. unicode_escape-OnOneLine c)
                                      λ _.
                                        joined _ _ (unicode_escape-OnOneLine _)
                                          (unicode_escape-OnOneLine _)

escape_all-OnOneLine : (s : Str) → OnOneLine (escape_all s)
unfolding escape_all
escape_all-OnOneLine [] = tt
escape_all-OnOneLine (c ∷ s) =
    joined (escape c) (escape_all s) (escape-OnOneLine c) (escape_all-OnOneLine s)

quoted-OnOneLine : (s : Str) → OnOneLine (quoted s)
unfolding quoted
quoted-OnOneLine s =
    (omega arith, joined (escape_all s) (b'"' ∷ []) (escape_all-OnOneLine s) (omega arith))

key-OnOneLine : (k : Str) → OnOneLine (quoted k ++ str ": ")
key-OnOneLine k = joined (quoted k) (str ": ") (quoted-OnOneLine k) (omega arith)

mutual
  unfolding dumps

  dumps_lem : (j : Json) → OnOneLine (dumps j)
  dumps_lem null = omega arith
  dumps_lem (bool true) = omega arith
  dumps_lem (bool false) = omega arith
  dumps_lem (int z) = of_ℤ-OnOneLine z
  dumps_lem (text s) = quoted-OnOneLine s
  dumps_lem (array xs) =
      (omega arith, joined (dumps_items xs) (str "]") (dumps_items_lem xs) (omega arith))
  dumps_lem (object fs) =
      (omega arith, joined (dumps_fields fs) (str "}") (dumps_fields_lem fs) (omega arith))

  dumps_items_lem : (xs : Items) → OnOneLine (dumps_items xs)
  dumps_items_lem nil = tt
  dumps_items_lem (cons x nil) = dumps_lem x
  dumps_items_lem (cons x (cons y ys)) =
      joined (dumps x ++ str ", ") (dumps_items (cons y ys))
        (joined (dumps x) (str ", ") (dumps_lem x) (omega arith)) (dumps_items_lem (cons y ys))

  dumps_fields_lem : (fs : Fields) → OnOneLine (dumps_fields fs)
  dumps_fields_lem end = tt
  dumps_fields_lem (field k x end) =
      joined (quoted k ++ str ": ") (dumps x) (key-OnOneLine k) (dumps_lem x)
  dumps_fields_lem (field k x (field l y fs)) =
      joined (quoted k ++ str ": " ++ dumps x ++ str ", ") (dumps_fields (field l y fs))
        (joined (quoted k ++ str ": " ++ dumps x) (str ", ")
          (joined (quoted k ++ str ": ") (dumps x) (key-OnOneLine k) (dumps_lem x)) (omega arith))
        (dumps_fields_lem (field l y fs))

-- Whatever value is dumped, quotes, line breaks and all, the text has printable ASCII characters
-- only.
pub dumps-OnOneLine : (j : Json) → OnOneLine (dumps j)
dumps-OnOneLine j = dumps_lem j
