-- ===== src/Py/Result.antt =====
-- Exceptions, and code that returns or raises.
use open_warehouse_agent.Base.{ℕ, ◌≡◌, refl, ◌⊎◌, inl, inr, Bool, true, false}
use open_warehouse_agent.Py.Str.{Str}

-- The exceptions that the program raises or tells apart, by class, with their message. `other`
-- stands for every other class, by its name.
pub data Exc : Type 0 where
  value_error unsafe_query_error key_error type_error attribute_error index_error : Str → Exc
  runtime_error import_error assertion_error tool_execution_error agent_loop_error : Str → Exc
  http_exception : ℕ → Str → Exc
  api_connection_error parse_error http_error timeout_error json_decode_error : Str → Exc
  other : Str → Str → Exc

-- `str(e)`. The message of a `KeyError` is the `repr` of its key, which callers give.
abbrev pub message : Exc → Str
message (value_error m) = m
message (unsafe_query_error m) = m
message (key_error m) = m
message (type_error m) = m
message (attribute_error m) = m
message (index_error m) = m
message (runtime_error m) = m
message (import_error m) = m
message (assertion_error m) = m
message (tool_execution_error m) = m
message (agent_loop_error m) = m
message (api_connection_error m) = m
message (http_error m) = m
message (parse_error m) = m
message (timeout_error m) = m
message (json_decode_error m) = m
message (http_exception n m) = m
message (other n m) = m

pub data Result {ℓ} (A : Type ℓ) : Type ℓ where
  ok : A → Result A
  err : Exc → Result A

-- What follows a step is run only if the step returns.
module _ {ℓ κ} {A : Type ℓ} {B : Type κ} where
  infixl 5 ◌>>=◌
  abbrev pub ◌>>=◌ : Result A → (A → Result B) → Result B
  err raised >>= rest = err raised
  ok value >>= rest = rest value

abbrev pub is_ok {ℓ} : {A : Type ℓ} → Result A → Bool
is_ok (ok a) = true
is_ok (err e) = false

-- To split on a computed result and keep the equation.
pub Result-cases {ℓ} :
    {A : Type ℓ} (r : Result A) → ((a : A) × (r ≡ ok a)) ⊎ ((e : Exc) × (r ≡ err e))
Result-cases (ok a) = inl (a, refl)
Result-cases (err e) = inr (e, refl)

-- A chain that returned went through a first step that returned.
pub returned {ℓ κ} :
    {A : Type ℓ} {B : Type κ} (r : Result A) (f : A → Result B) (b : B)
    → (r >>= f) ≡ ok b
    → (a : A) × (r ≡ ok a) × (f a ≡ ok b)
returned (ok a) f b h = (a, refl, h)
returned (err e) f b h = absurd (cc)

pub ok-injective {ℓ} : {A : Type ℓ} {a b : A} → ok a ≡ ok b → a ≡ b
ok-injective h = cc
