-- ===== src/Py/Json/Scalars.antt =====
-- Reading what `json.dumps` writes for texts, integers, Booleans and `None`.
use open_warehouse_agent.Py.Str.{Str, decimal_from, of_ℕ}
use open_warehouse_agent.Py.Number.{is_digit}
use open_warehouse_agent.Py.Json.{escape, escape_all, quoted}
use open_warehouse_agent.Py.Json.Reads.{IsScalar, read_char, read_char-escape}
use open_warehouse_agent.Base.{
  ℕ, zero, suc, ◌+◌, ◌-◌, ◌*◌, ◌/◌, ◌%◌, ◌≤◌, ◌<◌, ltb, ◌==◌, if◌then◌else◌, ◌≡◌, refl, ap, ◌∙◌,
  inl, inr, Bool, true, false, Option, none, some, [], ◌∷◌, ◌++◌, append_assoc, arith, length,
  length-append, All, Bool-cases, ==_iff,
}

-- What follows a text that is expected.
abbrev pub expect : Str → Str → Option Str
expect [] s = some s
expect (a ∷ p) [] = none
expect (a ∷ p) (b ∷ s) = elim (a == b) [ true ↦ expect p s | false ↦ none ]

pub expect-append : (p s : Str) → expect p (p ++ s) ≡ some s
expect-append [] s = refl
expect-append (a ∷ p) s = rw (expect, same a) (expect-append p s)
  where
    same : (a : ℕ) → (a == a) ≡ true
    same a = (==_iff a a).1 refl

abbrev push : ℕ → Option (Str × Str) → Option (Str × Str)
push c none = none
push c (some (s, t)) = some (c ∷ s, t)

-- The characters of a text up to its quote; the fuel is at least their number and one more.
unfoldable pub read_text : ℕ → Str → Option (Str × Str)
read_text zero s = none
read_text (suc n) [] = none
read_text (suc n) (c ∷ s) = elim (c == b'"') [
  | true ↦ some ([], s)
  | false ↦ elim (read_char (c ∷ s)) [ none ↦ none | some (d, t) ↦ push d (read_text n t) ]
]

read_char-empty : (d : ℕ) (t : Str) → read_char [] ≡ some (d, t) → ⊥
unfolding read_char
read_char-empty d t h = cc

read_char-quote : (c d : ℕ) (s t : Str) → (c == b'"') ≡ true → read_char (c ∷ s) ≡ some (d, t) → ⊥
unfolding read_char
read_char-quote c d s t e h = ground arith

read_text-step :
    (n d : ℕ) (s t : Str) → read_char s ≡ some (d, t) → read_text (suc n) s ≡ push d (read_text n t)
unfolding read_text
read_text-step n d [] t h = absurd (read_char-empty d t h)
read_text-step n d (c ∷ s) t h = elim (Bool-cases (c == b'"')) [
  | inl e ↦ absurd (read_char-quote c d s t e h)
  | inr e ↦ rw (read_text, e) (rw h refl)
]

read_text-escape_all :
    (fuel : ℕ) (s rest : Str)
    → length s < fuel
    → All IsScalar s
    → read_text fuel (escape_all s ++ (b'"' ∷ rest)) ≡ some (s, rest)
unfolding read_text escape_all
read_text-escape_all zero s rest h k = absurd (omega arith)
read_text-escape_all (suc n) [] rest h k = refl
read_text-escape_all (suc n) (c ∷ s) rest h (k, ks) =
    ap (read_text (suc n)) (append_assoc (escape c) (escape_all s) (b'"' ∷ rest))
    ∙ read_text-step n c _ _ (read_char-escape c (escape_all s ++ (b'"' ∷ rest)) k)
    ∙ ap (push c) (read_text-escape_all n s rest (omega arith) ks)

escape-not_empty : (c : ℕ) → IsScalar c → 1 ≤ length (escape c)
escape-not_empty c h = go (escape c) (read_char-escape c [] h)
  where
    go : (s : Str) → read_char (s ++ []) ≡ some (c, []) → 1 ≤ length s
    go [] e = absurd (read_char-empty c [] e)
    go (a ∷ s) e = omega arith

length-escape_all : (s : Str) → All IsScalar s → length s ≤ length (escape_all s)
unfolding escape_all
length-escape_all [] h = omega arith
length-escape_all (c ∷ s) (h, k) =
    omega
      (arith, length-append (escape c) (escape_all s), escape-not_empty c h, length-escape_all s k)

-- A text with its quotes; the input is longer than the text, so its length is fuel enough.
unfoldable pub read_quoted : Str → Option (Str × Str)
read_quoted [] = none
read_quoted (c ∷ s) = elim (c == b'"') [ true ↦ read_text (length s) s | false ↦ none ]

pub read_quoted-quoted :
    (s rest : Str) → All IsScalar s → read_quoted (quoted s ++ rest) ≡ some (s, rest)
unfolding read_quoted quoted
read_quoted-quoted s rest h =
    ap (λ t. read_text (length t) t) (append_assoc (escape_all s) (b'"' ∷ []) rest)
    ∙ read_text-escape_all (length (escape_all s ++ (b'"' ∷ rest))) s rest
        (omega (arith, length-append (escape_all s) (b'"' ∷ rest), length-escape_all s h)) h

-- As many digits as there are, after those with the value `n`.
unfoldable pub read_digits : ℕ → Bool → Str → Option (ℕ × Str)
read_digits n any [] = if any then some (n, []) else none
read_digits n any (c ∷ s) =
    let more = read_digits (n * 10 + (c - b'0')) true s in
    if is_digit c then more else if any then some (n, c ∷ s) else none

-- A text that does not go on with a digit.
abbrev pub Stops : Str → Type 0
Stops [] = Unit
Stops (c ∷ s) = is_digit c ≡ false

read_digits-decimal_from :
    (fuel n : ℕ) (b : Bool) (out : Str)
    → n < fuel
    → read_digits 0 b (decimal_from fuel n out) ≡ read_digits n true out
unfolding read_digits decimal_from
read_digits-decimal_from zero n b out h = absurd (omega arith)
read_digits-decimal_from (suc fuel) n b out h = elim (Bool-cases (ltb n 10)) [
  | inl e ↦ ground arith
  | inr e ↦
      ground
        (arith, read_digits-decimal_from fuel (n / 10) b ((b'0' + n % 10) ∷ out) (ground arith))
]

decimal_from-append :
    (fuel n : ℕ) (out rest : Str)
    → decimal_from fuel n out ++ rest ≡ decimal_from fuel n (out ++ rest)
unfolding decimal_from
decimal_from-append zero n out rest = refl
decimal_from-append (suc fuel) n out rest = elim (Bool-cases (ltb n 10)) [
  | inl e ↦ rw e refl
  | inr e ↦ rw e (decimal_from-append fuel (n / 10) ((b'0' + n % 10) ∷ out) rest)
]

stopped : (n : ℕ) (rest : Str) → Stops rest → read_digits n true rest ≡ some (n, rest)
unfolding read_digits
stopped n [] h = refl
stopped n (c ∷ s) h = ground arith

pub read_digits-of_ℕ :
    (n : ℕ) (rest : Str) → Stops rest → read_digits 0 false (of_ℕ n ++ rest) ≡ some (n, rest)
unfolding of_ℕ
read_digits-of_ℕ n rest h =
    ap (read_digits 0 false) (decimal_from-append (suc n) n [] rest)
    ∙ read_digits-decimal_from (suc n) n false rest (omega arith)
    ∙ stopped n rest h
