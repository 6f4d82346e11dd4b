-- ===== src/Py/Number.antt =====
-- `int(text)`, for texts of up to 4300 digits.
pub mod Printed
use open_warehouse_agent.Base.Int.{ℤ, pos, negsuc}
use open_warehouse_agent.Py.Result.{Result, ok, err, value_error}
use open_warehouse_agent.Py.Str.{Str, str, strip}
use open_warehouse_agent.Base.{
  ℕ, zero, suc, ◌+◌, ◌-◌, ◌*◌, leb, ◌==◌, if◌then◌else◌, ◌≡◌, refl, Bool, true, false, ◌&&◌, Option,
  none, some, [], ◌∷◌, ◌++◌,
}

abbrev pub is_digit : ℕ → Bool
is_digit c = leb b'0' c && leb c b'9'

-- The digits of a number with value `n` so far. Single underscores may stand between digits; the
-- flag says whether the last code point was a digit.
unfoldable digits : ℕ → Bool → Str → Option ℕ
digits n true [] = some n
digits n false [] = none
digits n after_digit (c ∷ s) =
    let more = digits (n * 10 + (c - b'0')) true s in
    let skip = digits n false s in
    if is_digit c then more else if c == b'_' && after_digit then skip else none

abbrev negate : ℕ → ℤ
negate zero = pos 0
negate (suc n) = negsuc n

abbrev signed : (ℕ → ℤ) → Option ℕ → Option ℤ
signed f none = none
signed f (some n) = some (f n)

unfoldable unsigned_or_signed : Str → Option ℤ
unfolding digits
unsigned_or_signed [] = none
unsigned_or_signed (c ∷ s) =
    if c == b'-'
    then signed negate (digits 0 false s)
    else if c == b'+'
    then signed pos (digits 0 false s)
    else signed pos (digits 0 false (c ∷ s))

-- `int(s)`, where `none` is its ValueError. The digits are those of ASCII.
unfoldable pub parse_int : Str → Option ℤ
unfolding unsigned_or_signed strip
parse_int s = unsigned_or_signed (strip s)

parse_int_test : parse_int (str " -1_0 ") ≡ some (negsuc 9)
unfolding parse_int
parse_int_test = refl

parse_int_refused :
    (parse_int (str "1__0") ≡ none) × (parse_int (str "") ≡ none) × (parse_int (str "1.5") ≡ none)
unfolding parse_int
parse_int_refused = (refl, refl, refl)

-- `int(value)` of an optional text with a default. `repr` is that of a text.
abbrev pub int_or : (Str → Str) → Option Str → ℤ → Result ℤ
int_or repr none default = ok default
int_or repr (some s) default = elim (parse_int s) [
  | some z ↦ ok z
  | none ↦ err (value_error (str "invalid literal for int() with base 10: " ++ repr s))
]
