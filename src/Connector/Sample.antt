-- ===== src/Connector/Sample.antt =====
-- A tiny SQL in the place of sqlglot, and a warehouse for it: a statement is a SELECT with the value
-- of its LIMIT, or a DROP.
use open_warehouse_agent.Base.Int.{ℤ, pos}
use open_warehouse_agent.Connector.Protocol.{Driver, Cell}
use open_warehouse_agent.Connector.SqlGuard.{Sqlglot, LimitValue, missing, node, int_of}
use open_warehouse_agent.Connector.SqlGuard.SelectOnly.{IsOneSelect}
use open_warehouse_agent.Connector.SqlGuard.Limits.{IsLawful, limit_number}
use open_warehouse_agent.Connector.SqlGuard
use open_warehouse_agent.Connector.Protocol
use open_warehouse_agent.Connector.Contract.{RespectsLimits}
use open_warehouse_agent.Py.Str.{Str, str}
use open_warehouse_agent.Py.Number.{parse_int}
use open_warehouse_agent.Py.Number.Printed.{parse_int-of_ℤ}
use open_warehouse_agent.Py.Json.{of_ℤ}
use open_warehouse_agent.Py.Result.{parse_error, Result, ok, err}
use open_warehouse_agent.Base.{
  ℕ, ◌+◌, ◌==◌, if◌then◌else◌, ◌≡◌, refl, Option, none, some, List, [], ◌∷◌, arith, take,
  length-take,
}

pub data Statement : Type 0 where
  selecting : Option LimitValue → Statement
  dropping : Statement

-- "s" parses to one SELECT, "f" to one with a LIMIT that is an expression, and "d" to a SELECT and a
-- DROP.
abbrev pub parse : Str → Str → Result (List (Option Statement))
parse [] dialect = ok (none ∷ [])
parse (c ∷ s) dialect =
    if c == b's'
    then ok (some (selecting none) ∷ none ∷ [])
    else if c == b'f'
    then ok (some (selecting (some node)) ∷ [])
    else if c == b'd'
    then ok (some (selecting none) ∷ some dropping ∷ [])
    else err (parse_error (str "invalid expression"))

abbrev pub as_select : Statement → Option (Option LimitValue)
as_select (selecting l) = some l
as_select dropping = none

-- A SELECT is rendered as its LIMIT.
abbrev pub render : Option LimitValue → Str
render (some (SqlGuard.text s)) = s
render l = []

abbrev pub sqlglot : Sqlglot
sqlglot = record {
  Statement = Statement;
  Select = Option LimitValue;
  Limit = LimitValue;
  parse = parse;
  as_select = as_select;
  type_name = λ s. str "Drop";
  limit_of = λ l. l;
  limit_value = λ l. l;
  limit = λ l n. some (SqlGuard.text (of_ℤ n));
  sql = λ s dialect. render s;
}

abbrev pub sqlglot-IsLawful : IsLawful sqlglot
unfolding int_of
sqlglot-IsLawful = record {
  IsCount = λ s. Unit;
  limit_of-limit = λ s n. (SqlGuard.text (of_ℤ (pos n)), refl, parse_int-of_ℤ (pos n));
  limit-IsCount = λ s n. tt;
}

-- As many rows as a text's LIMIT asks for, five at most.
abbrev pub five_rows : List (List Cell)
five_rows =
    (Protocol.null ∷ [])
    ∷ (Protocol.null ∷ [])
    ∷ (Protocol.null ∷ [])
    ∷ (Protocol.null ∷ [])
    ∷ (Protocol.null ∷ [])
    ∷ []

abbrev pub up_to_five : Option ℤ → List (List Cell)
up_to_five (some (pos n)) = take n five_rows
up_to_five n = []

-- A warehouse that counts the statements that it is sent.
abbrev pub driver : Driver
driver = record {
  Conn = ℕ;
  execute =
      λ sql ps n. (ok (record { rows = up_to_five (parse_int sql); description = [] }), n + 1);
  close = λ n. (ok tt, n);
}

render-parses :
    (s : Option LimitValue) (n : ℕ)
    → limit_number sqlglot s ≡ some (pos n)
    → parse_int (render s) ≡ some (pos n)
unfolding int_of
render-parses none n h = absurd (cc)
render-parses (some (SqlGuard.text t)) n h = h
render-parses (some missing) n h = absurd (cc)
render-parses (some node) n h = absurd (cc)

pub driver-RespectsLimits : (dialect : Str) → RespectsLimits sqlglot sqlglot-IsLawful driver dialect
driver-RespectsLimits dialect = record {
  at_most =
      λ s n c fetched h counted e. ground (arith, render-parses s n h, length-take n five_rows);
}

abbrev pub two_statements : Str
two_statements = str "d"

abbrev pub one_select : Str
one_select = str "s"

abbrev pub fetch_all : Str
fetch_all = str "f"

pub one_select-IsOneSelect : (dialect : Str) → IsOneSelect sqlglot one_select dialect none
one_select-IsOneSelect dialect = record {
  statements = some (selecting none) ∷ none ∷ [];
  statement = selecting none;
  parses = refl;
  alone = refl;
  selects = refl;
}

pub two_statements-refused :
    (dialect : Str) (s : Option LimitValue) → ¬ IsOneSelect sqlglot two_statements dialect s
two_statements-refused dialect s h = ground arith
