-- ===== src/Agent/Loop/Observed.antt =====
-- The model and the tools with a count of the model's calls and a list of the tool calls that
-- returned.
use open_warehouse_agent.Py.Str.{Str}
use open_warehouse_agent.Py.Json.{Json}
use open_warehouse_agent.Py.Result.{Result, ok, err}
use open_warehouse_agent.Py.Exec.{Exec}
use open_warehouse_agent.Agent.Loop.{ChatResponse, Message, ToolCallRecord}
use open_warehouse_agent.Base.{ℕ, ◌+◌, List, [], ◌∷◌, ◌++◌}

pub record Observed (W : Type 0) : Type 0 where
  pub world : W
  pub chats : ℕ
  pub executed : List ToolCallRecord

abbrev pub logged : Str → Json → Result Str → List ToolCallRecord → List ToolCallRecord
logged name args (ok s) log = log ++ (record { name = name; arguments = args; result = s } ∷ [])
logged name args (err e) log = log

module _ {W : Type 0} where
  unfoldable pub observe_chat :
      (List Message → Exec W ChatResponse) → List Message → Exec (Observed W) ChatResponse
  observe_chat chat_fn ms o =
      let (r, w) = chat_fn ms o.world in (r, record o { world = w; chats = o.chats + 1 })

  unfoldable pub observe_tool : (Str → Json → Exec W Str) → Str → Json → Exec (Observed W) Str
  observe_tool tool_executor name args o =
      let (r, w) = tool_executor name args o.world in
      (r, record o { world = w; executed = logged name args r o.executed })

  abbrev pub unobserved : W → Observed W
  unobserved w = record { world = w; chats = 0; executed = [] }
