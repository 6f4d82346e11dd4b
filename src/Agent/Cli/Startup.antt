-- ===== src/Agent/Cli/Startup.antt =====
-- agent/cli.py: `_amain`, from the start of the MCP server's process to its end.
use open_warehouse_agent.Py.Env.{Env}
use open_warehouse_agent.Py.Str.{Str, str}
use open_warehouse_agent.Py.Json.{Json, object, end}
use open_warehouse_agent.Py.Result.{Result, ok, err}
use open_warehouse_agent.Py.Exec.{Exec, pure, ◌>>=◌}
use open_warehouse_agent.Agent.Loop.{
  ChatResponse, Message, AgentResult, run_agent_loop, max_iterations_default,
}
use open_warehouse_agent.Agent.Loop.Prompt.{default_system_prompt}
use open_warehouse_agent.Agent.LlmClient.{
  McpTool, ToolParam, WireMessage, WireAnswer, client_settings, model_name, mcp_tools_to_openai,
  chat_fn,
}
use open_warehouse_agent.Agent.McpClient.{
  McpToolClient, ToolResult, on_world, enter, leave, list_tools, call_tool,
}
use open_warehouse_agent.Agent.Cli.{session_prompt, tool_executor, Transcript, session}
use open_warehouse_agent.Base.{false, Option, some, List, [], ◌∷◌, ◌++◌}

-- What the host calls outside the repository: starting the server's process, opening a session with
-- it and greeting it, closing both, the session's tools, and the chat API with its URL and key.
pub record Sdk (W : Type 0) : Type 0 where
  pub stdio_client : Exec W (Unit {0})
  pub client_session : Exec W (Unit {0})
  pub initialize : Exec W (Unit {0})
  pub aclose : Exec W (Unit {0})
  pub session_tools : Exec W (List McpTool)
  pub session_call : Str → Json → Exec W ToolResult
  pub create :
      Str × Str → Str → List WireMessage → Option (List ToolParam) → Exec W (List WireAnswer)

-- `MCPToolClient()`
abbrev pub new_client : {W : Type 0} → W → McpToolClient W
new_client w = record { stack = false; session = false; world = w }

abbrev pub banner : Str
banner = str "open-warehouse-agent — ask a question about orders/settlements (Ctrl-D to quit)"

-- `show` is the text of a call's arguments, `show_url` that of the client's URL, and `loads` is
-- `json.loads`.
module _ (show : Json → Str) (show_url : Str → Str) (loads : Str → Result Json) (env : Env)
    {W : Type 0} (K : Sdk W) where
  abbrev pub chat : List ToolParam → List Message → Exec (McpToolClient W) ChatResponse
  chat tools ms =
      on_world (chat_fn loads (K.create (client_settings env)) (model_name env) tools ms)

  abbrev pub unreachable : Str
  unreachable =
      str "Could not reach the model at "
      ++ show_url (client_settings env).0
      ++ str " — is `ollama serve` running, and have you run `ollama pull "
      ++ model_name env
      ++ str "`?"

  -- The tools for the model, and the system prompt.
  unfoldable pub prepare : Exec (McpToolClient W) (List ToolParam × Str)
  prepare = do
    tools ← list_tools K.session_tools
    table_list ← call_tool K.session_call (str "list_tables") (object end)
    pure (mcp_tools_to_openai tools, session_prompt default_system_prompt table_list)

  abbrev pub ask : List ToolParam → Str → Str → Exec (McpToolClient W) AgentResult
  ask tools system_prompt question =
      run_agent_loop (chat tools) (tool_executor (call_tool K.session_call)) question system_prompt
        max_iterations_default

  -- The body of the `async with`.
  abbrev pub converse :
      List Str → Result (List ToolParam × Str) × McpToolClient W → Transcript show (McpToolClient W)
  converse inputs (err e, c) = record { printed = []; crashed = some e; world = c }
  converse inputs (ok (tools, system_prompt), c) =
      session show (ask tools system_prompt) unreachable inputs c

  -- Its end, which is reached whether or not the body raised.
  abbrev pub closing : Transcript show (McpToolClient W) → Transcript show (McpToolClient W)
  closing t =
      let (r, c) = leave K.aclose t.world in
      record t { crashed = elim r [ ok u ↦ t.crashed | err e ↦ some e ]; world = c }

  -- An entry that raises is not followed by the end.
  abbrev pub entered :
      List Str → Result (Unit {0}) × McpToolClient W → Transcript show (McpToolClient W)
  entered inputs (err e, c) = record { printed = []; crashed = some e; world = c }
  entered inputs (ok u, c) = closing (converse inputs (prepare c))

  unfoldable pub amain : List Str → W → Transcript show (McpToolClient W)
  unfolding prepare
  amain inputs w =
      let t = entered inputs (enter K.stdio_client K.client_session K.initialize (new_client w)) in
      record t { printed = banner ∷ t.printed }
