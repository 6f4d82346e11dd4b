-- ===== src/Py/Str.antt =====
-- Python's `str` as the list of its code points, and the methods that the program calls.
use Prim.Native.Char.{code}
use open_warehouse_agent.Base.{
  String, ℕ, zero, suc, ◌+◌, ◌/◌, ◌%◌, ltb, leb, ◌==◌, if◌then◌else◌, ◌≡◌, refl, ◌↔◌, Bool, true,
  false, not, ◌&&◌, ◌||◌, List, [], ◌∷◌, ◌++◌, arith,
}

abbrev pub Str : Type 0
Str = List ℕ

-- A text literal.
abbrev pub str : String → Str
str String.[] = []
str (String.◌∷◌ c s) = code c ∷ str s

-- `s == t`
abbrev pub str_eq : Str → Str → Bool
str_eq [] [] = true
str_eq (a ∷ s) (b ∷ t) = a == b && str_eq s t
str_eq _ _ = false

pub str_eq_iff : (s t : Str) → (str_eq s t ≡ true) ↔ (s ≡ t)
str_eq_iff [] [] = (λ h. refl, λ h. refl)
str_eq_iff [] (b ∷ t) = (λ h. cc, λ h. cc)
str_eq_iff (a ∷ s) [] = (λ h. cc, λ h. cc)
str_eq_iff (a ∷ s) (b ∷ t) = ground (arith, str_eq_iff s t)

pub str_eq_refl : (s : Str) → str_eq s s ≡ true
str_eq_refl s = (str_eq_iff s s).1 refl

-- Truth of a text: `not s` is `is_empty s`.
abbrev pub is_empty {ℓ} : {A : Type ℓ} → List A → Bool
is_empty [] = true
is_empty (_ ∷ _) = false

-- `t.startswith(s)`
abbrev pub startswith : Str → Str → Bool
startswith t [] = true
startswith [] (b ∷ s) = false
startswith (a ∷ t) (b ∷ s) = a == b && startswith t s

-- The code points that `str.strip` and `str.isspace` take for white space.
abbrev pub is_space : ℕ → Bool
is_space c =
    leb 9 c && leb c 13
    || leb 28 c && leb c 32
    || c == 0x85
    || c == 0xa0
    || c == 0x1680
    || leb 0x2000 c && leb c 0x200a
    || c == 0x2028
    || c == 0x2029
    || c == 0x202f
    || c == 0x205f
    || c == 0x3000

-- `s.lstrip()`
unfoldable pub lstrip : Str → Str
lstrip [] = []
lstrip (c ∷ s) = if is_space c then lstrip s else c ∷ s

-- `s.rstrip()`: the last white space goes, from the right.
unfoldable pub rstrip : Str → Str
rstrip [] = []
rstrip (c ∷ s) = let rest = rstrip s in if is_space c && is_empty rest then [] else c ∷ rest

-- `s.strip()`
unfoldable pub strip : Str → Str
unfolding lstrip rstrip
strip s = rstrip (lstrip s)

-- `s.partition(" ")`, without its middle part.
unfoldable pub partition_space : Str → Str × Str
partition_space [] = ([], [])
partition_space (c ∷ s) =
    let (head, tail) = partition_space s in if c == b' ' then ([], s) else (c ∷ head, tail)

-- `s.lower()` on code points below 256, which is all that an HTTP header holds.
abbrev pub lower_code : ℕ → ℕ
lower_code c =
    if leb b'A' c && leb c b'Z' || leb 0xc0 c && leb c 0xde && not (c == 0xd7) then c + 32 else c

unfoldable pub lower : Str → Str
lower [] = []
lower (c ∷ s) = lower_code c ∷ lower s

-- `sep.join(parts)`
unfoldable pub join : Str → List Str → Str
join sep [] = []
join sep (s ∷ []) = s
join sep (s ∷ t ∷ rest) = s ++ sep ++ join sep (t ∷ rest)

abbrev pub glue : ℕ → List Str → List Str
glue c [] = (c ∷ []) ∷ []
glue c (part ∷ parts) = (c ∷ part) ∷ parts

-- `s.split(sep)` for a separator of one code point.
unfoldable pub split : ℕ → Str → List Str
split sep [] = [] ∷ []
split sep (c ∷ s) = let parts = split sep s in if c == sep then [] ∷ parts else glue c parts

-- The code points that end a line for `str.splitlines`.
abbrev pub is_break : ℕ → Bool
is_break c = leb 10 c && leb c 13 || leb 28 c && leb c 30 || c == 0x85 || c == 0x2028 || c == 0x2029

-- `s.splitlines()`; a carriage return and a line feed are one break.
unfoldable pub splitlines : Str → List Str
splitlines [] = []
splitlines (c ∷ s) =
    let rest = splitlines s in
    if c == 13 && startswith s (10 ∷ [])
    then rest
    else if is_break c
    then [] ∷ rest
    else glue c rest

-- `part in s`
abbrev pub occurs : Str → Str → Bool
occurs part [] = is_empty part
occurs part (c ∷ s) = startswith (c ∷ s) part || occurs part s

unfoldable pub decimal_from : ℕ → ℕ → Str → Str
decimal_from zero n out = out
decimal_from (suc fuel) n out =
    let rest = decimal_from fuel (n / 10) ((b'0' + n % 10) ∷ out) in
    if ltb n 10 then (b'0' + n) ∷ out else rest

-- `str(n)` of a number that is not negative. A number has fewer digits than it has units, so the
-- fuel is enough.
unfoldable pub of_ℕ : ℕ → Str
unfolding decimal_from
of_ℕ n = decimal_from (suc n) n []

-- `s.isascii()`
abbrev pub is_ascii : Str → Bool
is_ascii [] = true
is_ascii (c ∷ s) = ltb c 128 && is_ascii s

of_ℕ_test : of_ℕ 8000 ≡ str "8000"
unfolding of_ℕ
of_ℕ_test = refl

strip_test : strip (str "  a b ") ≡ str "a b"
unfolding strip
strip_test = refl

splitlines_test : splitlines (str "a\r\nb\n\nc") ≡ str "a" ∷ str "b" ∷ [] ∷ str "c" ∷ []
unfolding splitlines
splitlines_test = refl
