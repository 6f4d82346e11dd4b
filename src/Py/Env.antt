-- ===== src/Py/Env.antt =====
-- `os.environ`.
use open_warehouse_agent.Py.Str.{Str, str, is_empty}
use open_warehouse_agent.Py.Result.{key_error, Result, ok, err}
use open_warehouse_agent.Base.{
  if◌then◌else◌, ◌≡◌, inl, inr, Bool, false, not, Option, none, some, ◌++◌, arith, Option-cases,
}

abbrev pub Env : Type 0
Env = Str → Option Str

-- `os.environ[name]`; a `KeyError`'s message is the name in quotes.
unfoldable pub required : Env → Str → Result Str
required env name = elim (env name) [
  | some v ↦ ok v
  | none ↦ err (key_error (str "'" ++ name ++ str "'"))
]

pub required-ok :
    (env : Env) (name value : Str) → required env name ≡ ok value → env name ≡ some value
unfolding required
required-ok env name value h = elim (Option-cases (env name)) [
  | inl n ↦ absurd (ground arith)
  | inr (v, e) ↦ ground arith
]

-- `value or os.environ[name]`
abbrev pub given_or : Option Str → Result Str → Result Str
given_or none r = r
given_or (some v) r = if is_empty v then r else ok v

-- The truth of `os.environ.get(name)`.
abbrev pub is_set : Option Str → Bool
is_set none = false
is_set (some v) = not (is_empty v)
