-- ===== src/System/Shown.antt =====
-- What the host prints of a question, against what the server was asked for it.
use open_warehouse_agent.Base.Int.{ℤ}
use open_warehouse_agent.Connector.Protocol.{WarehouseConnector}
use open_warehouse_agent.McpServer.Server.{Server}
use open_warehouse_agent.Agent.Loop.{Message, ToolCallRecord, AgentResult, max_iterations_default}
use open_warehouse_agent.Agent.Loop.Traces.{run_agent_loop-Leaves}
use open_warehouse_agent.Agent.LlmClient.{
  ToolParam, chat_fn, client_settings, model_name, to_wire_messages, or_none,
}
use open_warehouse_agent.Agent.McpClient.{McpToolClient, call_tool}
use open_warehouse_agent.Agent.Cli.{tool_executor}
use open_warehouse_agent.Agent.Cli.Startup.{Sdk, chat, ask}
use open_warehouse_agent.System.{Link, served}
use open_warehouse_agent.Py.Env.{Env}
use open_warehouse_agent.Py.Str.{Str}
use open_warehouse_agent.Py.Json.{Json}
use open_warehouse_agent.Py.Result.{Result, ok}
use open_warehouse_agent.Py.Exec.{Leaves_of_ok, continue-keeps}
use open_warehouse_agent.Base.{◌≡◌, sym, ap, ◌∙◌, true, List, [], ◌∷◌, ◌++◌, arith, subst}

module _ (C : WarehouseConnector) (max_row_limit : ℤ) {W : Type 0} (K : Sdk W)
    (L : Link C max_row_limit K) where
  -- A server that gets the requests of a list, one after the other and nothing between them: each is
  -- read as the SDK reads it at some moment.
  pub data Gets : List ToolCallRecord → Server C.Conn → Server C.Conn → Type 0 where
    nothing : (s : Server C.Conn) → Gets [] s s
    one_more :
        (made : List ToolCallRecord) (c : ToolCallRecord) (w : W) (s t : Server C.Conn)
        → Gets made s t
        → Gets (made ++ (c ∷ [])) s (served C max_row_limit t (L.reads c.name c.arguments w))

  -- An entered client whose server got the requests of a list.
  abbrev Got : Server C.Conn → List ToolCallRecord → McpToolClient W → Type 0
  Got s made c = (c.session ≡ true) × Gets made s (L.server c.world)

  tool-world :
      (name : Str) (args : Json) (c : McpToolClient W)
      → c.session ≡ true
      → (tool_executor (call_tool K.session_call) name args c).1
        ≡ record c { world = (K.session_call name args c.world).1 }
  unfolding tool_executor call_tool
  tool-world name args c h = ground arith

  Got-tool :
      (s : Server C.Conn) (made : List ToolCallRecord) (name : Str) (args : Json) (result : Str)
      → (c d : McpToolClient W) → Got s made c
      → tool_executor (call_tool K.session_call) name args c ≡ (ok result, d)
      → Got s (made ++ (record { name = name; arguments = args; result = result } ∷ [])) d
  Got-tool s made name args result c d (h, g) e =
      let q : record c { world = (K.session_call name args c.world).1 } ≡ d =
        sym (tool-world name args c h) ∙ ap (λ x. x.1) e in
      subst (Got s (made ++ (record { name = name; arguments = args; result = result } ∷ []))) q (
        h,
        subst (Gets (made ++ (record { name = name; arguments = args; result = result } ∷ [])) s)
            (sym (L.calls name args c.world))
            (one_more made (record { name = name; arguments = args; result = result }) c.world s
              (L.server c.world) g),
      )

  module _ (show : Json → Str) (show_url : Str → Str) (loads : Str → Result Json) (env : Env) where
    Got-chat :
        (tools : List ToolParam) (s : Server C.Conn) (made : List ToolCallRecord)
        → (ms : List Message) (c : McpToolClient W) → Got s made c
        → Got s made (chat show show_url loads env K tools ms c).1
    unfolding chat_fn
    Got-chat tools s made ms c (h, g) = (h, subst (Gets made s) (sym same) g)
      where
        same :
            L.server
              (chat_fn loads (K.create (client_settings env)) (model_name env) tools ms c.world).1
            ≡ L.server c.world
        same =
            continue-keeps (λ v. L.server v ≡ L.server c.world)
              (K.create (client_settings env) (model_name env) (to_wire_messages ms) (or_none tools)
                c.world)
              _
              (L.chats (client_settings env) (model_name env) (to_wire_messages ms) (or_none tools)
                c.world)
              (λ choices v k. k)

    -- Over an SDK that is as `Link` says, in an entered client: if a question is answered, the tool
    -- calls that are listed with the answer are the requests that the server got for it, in their
    -- order: it is left as these requests, one after the other, leave it.
    pub ask-Gets :
        (tools : List ToolParam) (system_prompt question : Str) (c : McpToolClient W)
        → (r : AgentResult) → c.session ≡ true
        → (ask show show_url loads env K tools system_prompt question c).0 ≡ ok r
        → Gets r.tool_calls
            (L.server c.world)
            (L.server (ask show show_url loads env K tools system_prompt question c).1.world)
    ask-Gets tools prompt question c r h e =
        (Leaves_of_ok (λ r d. Got (L.server c.world) r.tool_calls d) (λ d. Unit {0})
          (ask show show_url loads env K tools prompt question c) r
          (run_agent_loop-Leaves (chat show show_url loads env K tools)
            (tool_executor (call_tool K.session_call)) (Got (L.server c.world))
            (Got-chat tools (L.server c.world)) (Got-tool (L.server c.world)) question prompt
            max_iterations_default c (h, nothing (L.server c.world)))
          e).1
