-- ===== src/Data/SeedDatabricks/Quoted.antt =====
-- A text literal ends where it should, whatever the text holds.
use open_warehouse_agent.Data.Rows.{text}
use open_warehouse_agent.Data.SeedDatabricks.{doubled, sql_literal}
use open_warehouse_agent.Py.Str.{Str, str}
use open_warehouse_agent.Base.{
  ℕ, ◌==◌, if◌then◌else◌, ◌≡◌, refl, ◌≢◌, Bool, true, false, Option, none, some, [], ◌∷◌, ◌++◌,
  append_assoc, arith,
}

abbrev prepend : ℕ → Option (Str × Str) → Option (Str × Str)
prepend c none = none
prepend c (some (s, rest)) = some (c ∷ s, rest)

-- A text literal of standard SQL, from its first quote on: two quotes are one, and a single one ends
-- it; a backslash is a character like others. The flag says whether the last code point was a quote
-- that may be the end.
unfoldable scan : Bool → Str → Option (Str × Str)
scan false [] = none
scan true [] = some ([], [])
scan false (c ∷ s) =
    let over = scan true s in let more = scan false s in if c == b'\'' then over else prepend c more
scan true (c ∷ s) =
    let more = scan false s in if c == b'\'' then prepend c more else some ([], c ∷ s)

-- The text of the literal at the start of a statement, and what follows it.
unfoldable pub read_literal : Str → Option (Str × Str)
unfolding scan
read_literal [] = none
read_literal (c ∷ s) = if c == b'\'' then scan false s else none

-- What follows does not go on with a quote.
abbrev pub NoQuote : Str → Type 0
NoQuote [] = Unit
NoQuote (c ∷ s) = c ≢ b'\''

scan-doubled :
    (s rest : Str) → NoQuote rest → scan false (doubled s ++ (b'\'' ∷ rest)) ≡ some (s, rest)
unfolding scan doubled
scan-doubled [] [] h = refl
scan-doubled [] (c ∷ rest) h = ground arith
scan-doubled (c ∷ s) rest h = ground (arith, scan-doubled s rest h)

-- The literal of any text, quotes in it included, followed by anything but a quote, is read by the
-- rules of standard SQL as that text, and ends where it was written to end.
pub read_literal-sql_literal :
    (isoformat show_amount : ℕ → Str) (s rest : Str)
    → NoQuote rest
    → read_literal (sql_literal isoformat show_amount (text s) ++ rest) ≡ some (s, rest)
unfolding read_literal sql_literal
read_literal-sql_literal isoformat show_amount s rest h =
    ground (arith, scan-doubled s rest h, append_assoc (doubled s) (str "'") rest)
