-- ===== src/System/Told.antt =====
-- What the model is told of a value that a tool returned.
use open_warehouse_agent.Agent.McpClient.{ToolResult, read_result, first_text}
use open_warehouse_agent.System.{Carries}
use open_warehouse_agent.Py.Str.{Str}
use open_warehouse_agent.Py.Json.{Json, dumps}
use open_warehouse_agent.Py.Result.{ok}
use open_warehouse_agent.Base.{◌≡◌, refl, ◌⊎◌, inl, inr, false, arith}

-- The structured content of the value as `json.dumps` writes it, or the text that the SDK makes of
-- the value.
abbrev pub IsToldAs : (Json → Json) → (Json → Str) → Json → Str → Type 0
IsToldAs structured encode j s = (s ≡ dumps (structured j)) ⊎ (s ≡ encode j)

pub read_result-IsToldAs :
    (structured : Json → Json) (encode : Json → Str) (name : Str) (r : ToolResult) (j : Json)
    → r.is_error ≡ false
    → Carries structured encode r j
    → (s : Str) × (read_result name r ≡ ok s) × IsToldAs structured encode j s
unfolding read_result first_text
read_result-IsToldAs structured encode name r j e (inl c) =
    (dumps (structured j), ground arith, inl refl)
read_result-IsToldAs structured encode name r j e (inr (c, (rest, t), some_text)) =
    (encode j, ground arith, inr refl)
