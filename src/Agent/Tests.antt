-- ===== src/Agent/Tests.antt =====
-- Runs of the agent with a model and tools that follow a script.
use open_warehouse_agent.Agent.Cli.Startup.{Sdk, amain}
use open_warehouse_agent.Agent.Cli.Process.{amain-closes}
use open_warehouse_agent.Agent.McpClient.{call_tool, enter}
use open_warehouse_agent.Py.Str.{Str, str, strip, lstrip, rstrip}
use open_warehouse_agent.Py.Json.{Json, object, end, field, int, text, array, nil, cons}
use open_warehouse_agent.Py.Json.Loads.{read_json, has}
use open_warehouse_agent.Py.Json.Loads.RoundTrip.{IsPlain}
use open_warehouse_agent.Base.Int.{pos}
use open_warehouse_agent.Py.Json.Printable.{OnOneLine}
use open_warehouse_agent.Agent.McpClient.{ToolResult}
use open_warehouse_agent.Agent.McpClient.Told.{tool_executor-structured}
use open_warehouse_agent.Agent.Cli.{tool_executor}
use open_warehouse_agent.Py.Result.{
  json_decode_error, api_connection_error, runtime_error, Result, ok, err,
}
use open_warehouse_agent.Py.Exec.{Exec}
use open_warehouse_agent.Agent.Loop.{
  Call, ChatResponse, Message, AgentResult, run_agent_loop, rounds, round, respond, run_tools,
}
use open_warehouse_agent.Agent.Loop.Observed.{observe_chat, observe_tool, unobserved}
use open_warehouse_agent.Agent.Loop.Protocol.{Sendable, run_agent_loop-keeps}
use open_warehouse_agent.Agent.Loop.Reports.{Reports, run_agent_loop-Reports}
use open_warehouse_agent.Agent.LlmClient.{wire_calls, read_calls}
use open_warehouse_agent.Agent.LlmClient.Wire.{read_calls-wire_calls}
use open_warehouse_agent.Base.{
  ℕ, zero, suc, ◌+◌, ◌≡◌, refl, true, false, none, some, List, [], ◌∷◌, arith, length, All,
}

abbrev no_arguments : Json
no_arguments = object end

abbrev a_call : Call
a_call = record { id = str "c1"; name = str "list_tables"; arguments = no_arguments }

-- The model asks for a tool first, says nothing then, and answers in the end. The world counts its
-- chats.
abbrev scripted : ℕ → ChatResponse
scripted zero = record { content = none; tool_calls = some (a_call ∷ []) }
scripted (suc zero) = record { content = some (str " "); tool_calls = none }
scripted n = record { content = some (str "done"); tool_calls = some [] }

abbrev model : List Message → Exec ℕ ChatResponse
model ms w = (ok (scripted w), w + 1)

abbrev tables : Str → Json → Exec ℕ Str
tables name args w = (ok (str "[]"), w)

abbrev question : Str
question = str "Which tables?"

abbrev prompt : Str
prompt = str "You are a helpful assistant."

abbrev done : AgentResult
done = record {
  answer = str "done";
  tool_calls =
      record { name = str "list_tables"; arguments = no_arguments; result = str "[]" } ∷ [];
}

-- A model that keeps every transcript that it is sent.
abbrev recorder : List Message → Exec (List (List Message)) ChatResponse
recorder ms w = (ok (scripted (length w)), ms ∷ w)

abbrev recorder_tools : Str → Json → Exec (List (List Message)) Str
recorder_tools name args w = (ok (str "[]"), w)

run_agent_loop-keeps_example :
    All Sendable (run_agent_loop recorder recorder_tools question prompt 12 []).1
run_agent_loop-keeps_example =
    run_agent_loop-keeps recorder recorder_tools (λ w. All Sendable w) (λ name args w h. h)
      (λ ms w sendable h. (sendable, h)) question prompt 12 [] tt

run_agent_loop-Reports_example :
    Reports model tables done
      (run_agent_loop
        (observe_chat model)
        (observe_tool tables)
        question
        prompt
        12
        (unobserved 0)).1
unfolding run_agent_loop rounds round respond run_tools observe_chat observe_tool strip lstrip
    rstrip
run_agent_loop-Reports_example = run_agent_loop-Reports model tables question prompt 12 0 done refl

-- `json.loads` of one text.
abbrev loads : Str → Result Json
loads s = ok no_arguments

-- `json.loads` of the values that have a model.
abbrev json_loads : Str → Result Json
json_loads s = elim (read_json s) [
  | some j ↦ ok j
  | none ↦ err (json_decode_error (str "Expecting value"))
]

json_loads-json : (s : Str) (j : Json) → read_json s ≡ some j → json_loads s ≡ ok j
json_loads-json s j h = rw (json_loads, h) refl

-- A query of two lines, as a model writes its arguments.
abbrev a_query : Call
a_query = record {
  id = str "c2";
  name = str "run_query";
  arguments = object (
      field (str "sql") (text (str "select \"sku\"\nfrom orders"))
        (field (str "row_limit") (int (pos 5)) end));
}

read_calls-wire_calls_example :
    read_calls json_loads (wire_calls (a_call ∷ a_query ∷ [])) ≡ ok (a_call ∷ a_query ∷ [])
unfolding IsPlain has
read_calls-wire_calls_example =
    read_calls-wire_calls json_loads json_loads-json (a_call ∷ a_query ∷ []) (ground arith)

-- A server and a model that count their calls; closing sets the count to 0.
abbrev sdk : Sdk ℕ
sdk = record {
  stdio_client = λ w. (ok tt, w + 1);
  client_session = λ w. (ok tt, w + 1);
  initialize = λ w. (ok tt, w + 1);
  aclose = λ w. (ok tt, 0);
  session_tools = λ w. (ok [], w + 1);
  session_call = λ name args w.
      (ok (record { is_error = false; structured_content = none; content = [] }), w + 1);
  create = λ settings name messages tools w. (err (runtime_error (str "503 warming up")), w + 1);
}

amain-closes_example :
    (amain
      (λ j. [])
      (λ u. u)
      (λ s. ok no_arguments)
      (λ name. none)
      sdk
      (question ∷ question ∷ [])
      0).world.world
    ≡ 0
unfolding enter
amain-closes_example =
    amain-closes (λ j. []) (λ u. u) (λ s. ok no_arguments) (λ name. none) sdk (λ w. w ≡ 0)
      (λ w. refl) (question ∷ question ∷ []) 0 refl

-- The same with a model that cannot be reached.
abbrev unreached : Sdk ℕ
unreached = record sdk {
  create = λ settings name messages tools w. (err (api_connection_error (str "refused")), w + 1);
}

abbrev tables_answer : Json
tables_answer = object (field (str "result") (array (cons (text (str "orders")) nil)) end)

abbrev answering : Str → Json → Exec ℕ ToolResult
answering name args w =
    (ok (record { is_error = false; structured_content = some tables_answer; content = [] }), w + 1)

tool_executor-structured_example :
    (s : Str) × ((tool_executor
        (call_tool answering)
        (str "list_tables")
        no_arguments
        (record { stack = true; session = true; world = 0 })).0
      ≡ ok s)
    × (read_json s ≡ some tables_answer)
    × OnOneLine s
unfolding IsPlain has
tool_executor-structured_example =
    tool_executor-structured answering (str "list_tables") no_arguments
      (record { stack = true; session = true; world = 0 })
      (record { is_error = false; structured_content = some tables_answer; content = [] })
      tables_answer refl refl refl refl (ground arith)
