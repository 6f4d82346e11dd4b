-- ===== src/Agent/McpClient/Told.antt =====
-- What the model is told of a tool's answer.
use open_warehouse_agent.Py.Str.{Str}
use open_warehouse_agent.Py.Json.{Json, dumps}
use open_warehouse_agent.Py.Json.Printable.{OnOneLine, dumps-OnOneLine}
use open_warehouse_agent.Py.Json.Loads.{read_json}
use open_warehouse_agent.Py.Json.Loads.RoundTrip.{IsPlain, read_json-dumps}
use open_warehouse_agent.Py.Result.{ok}
use open_warehouse_agent.Py.Exec.{Exec}
use open_warehouse_agent.Agent.McpClient.{McpToolClient, ToolResult, call_tool, read_result}
use open_warehouse_agent.Agent.Cli.{tool_executor}
use open_warehouse_agent.Base.{◌≡◌, true, false, some, arith}

-- In an entered client, a structured answer of a tool that did not fail reaches the model as one
-- line of printable ASCII, which reads as JSON of that answer, if its texts have no surrogates and
-- no object of it has a key twice.
pub tool_executor-structured :
    {W : Type 0} (session_call : Str → Json → Exec W ToolResult) (name : Str) (arguments : Json)
    → (c : McpToolClient W) (r : ToolResult) (j : Json) → c.session ≡ true
    → (session_call name arguments c.world).0 ≡ ok r
    → r.is_error ≡ false
    → r.structured_content ≡ some j
    → IsPlain j
    → (s : Str) × ((tool_executor (call_tool session_call) name arguments c).0 ≡ ok s)
      × (read_json s ≡ some j)
      × OnOneLine s
tool_executor-structured session_call name arguments c r j h e f g p = (
  dumps j,
  unfold tool_executor call_tool read_result in ground arith,
  read_json-dumps j p,
  dumps-OnOneLine j,
)
