-- ===== src/Agent/Cli/Keeps.antt =====
-- What the calls of the host keep of the world, over a whole chat.
use open_warehouse_agent.Py.Env.{Env}
use open_warehouse_agent.Py.Str.{Str, str}
use open_warehouse_agent.Py.Json.{Json, object, end}
use open_warehouse_agent.Py.Result.{Result, ok, err}
use open_warehouse_agent.Py.Exec.{Exec, continue, continue-keeps}
use open_warehouse_agent.Agent.Loop.{Message, max_iterations_default}
use open_warehouse_agent.Agent.Loop.Protocol.{run_agent_loop-keeps}
use open_warehouse_agent.Agent.LlmClient.{
  ToolParam, WireMessage, chat_fn, to_wire_messages, or_none, client_settings, model_name,
}
use open_warehouse_agent.Agent.McpClient.{
  McpToolClient, enter, leave, list_tools, call_tool, on_world,
}
use open_warehouse_agent.Agent.Cli.{tool_executor}
use open_warehouse_agent.Agent.Cli.Startup.{
  Sdk, new_client, chat, unreachable, prepare, ask, converse, entered, amain,
}
use open_warehouse_agent.Agent.Cli.Process.{session-keeps}
use open_warehouse_agent.Base.{if◌then◌else◌, Bool, true, false, Option, List}

-- Every call that the host makes outside the repository keeps `P`.
pub record KeptBy {W : Type 0} (K : Sdk W) (P : W → Type 0) : Type 0 where
  pub stdio_client : (w : W) → P w → P (K.stdio_client w).1
  pub client_session : (w : W) → P w → P (K.client_session w).1
  pub initialize : (w : W) → P w → P (K.initialize w).1
  pub aclose : (w : W) → P w → P (K.aclose w).1
  pub session_tools : (w : W) → P w → P (K.session_tools w).1
  pub session_call : (name : Str) (args : Json) (w : W) → P w → P (K.session_call name args w).1
  pub create :
      (settings : Str × Str) (model : Str) (messages : List WireMessage)
      → (tools : Option (List ToolParam)) (w : W) → P w
      → P (K.create settings model messages tools w).1

module _ (show : Json → Str) (show_url : Str → Str) (loads : Str → Result Json) (env : Env)
    {W : Type 0} (K : Sdk W) (P : W → Type 0) (H : KeptBy K P) where
  abbrev keeps :
      {A B : Type 0} (x : Result A × McpToolClient W) (f : A → Exec (McpToolClient W) B)
      → P x.1.world
      → ((a : A) (c : McpToolClient W) → P c.world → P (f a c).1.world)
      → P (continue x f).1.world
  keeps x f h k = continue-keeps (λ (c : McpToolClient W). P c.world) x f h k

  if-keeps :
      {A : Type 0} (b : Bool) (x y : Result A × McpToolClient W)
      → P x.1.world
      → P y.1.world
      → P (if b then x else y).1.world
  if-keeps true x y h k = h
  if-keeps false x y h k = k

  enter-keeps :
      (c : McpToolClient W)
      → P c.world
      → P (enter K.stdio_client K.client_session K.initialize c).1.world
  unfolding enter
  enter-keeps c h =
      keeps (on_world K.stdio_client (record c { stack = true })) _ (H.stdio_client c.world h)
        λ _ d k.
          keeps (on_world K.client_session d) _ (H.client_session d.world k)
            λ _ e l. H.initialize e.world l

  call_tool-keeps :
      (name : Str) (args : Json) (c : McpToolClient W)
      → P c.world
      → P (call_tool K.session_call name args c).1.world
  unfolding call_tool
  call_tool-keeps name args c h =
      if-keeps c.session _ _
        (keeps (on_world (K.session_call name args) c) _ (H.session_call name args c.world h)
          (λ r d k. k))
        h

  list_tools-keeps : (c : McpToolClient W) → P c.world → P (list_tools K.session_tools c).1.world
  unfolding list_tools
  list_tools-keeps c h = if-keeps c.session _ _ (H.session_tools c.world h) h

  chat_fn-keeps :
      (settings : Str × Str) (model : Str) (tools : List ToolParam) (ms : List Message) (w : W)
      → P w
      → P (chat_fn loads (K.create settings) model tools ms w).1
  unfolding chat_fn
  chat_fn-keeps settings model tools ms w h =
      continue-keeps P (K.create settings model (to_wire_messages ms) (or_none tools) w) _
        (H.create settings model (to_wire_messages ms) (or_none tools) w h) (λ choices v k. k)

  leave-keeps : (c : McpToolClient W) → P c.world → P (leave K.aclose c).1.world
  unfolding leave
  leave-keeps c h =
      if-keeps c.stack _ _ (keeps (on_world K.aclose c) _ (H.aclose c.world h) (λ u d k. k)) h

  prepare-keeps :
      (c : McpToolClient W) → P c.world → P (prepare show show_url loads env K c).1.world
  unfolding prepare
  prepare-keeps c h = keeps (list_tools K.session_tools c) _ (list_tools-keeps c h) λ tools d k.
      keeps (call_tool K.session_call (str "list_tables") (object end) d) _
        (call_tool-keeps (str "list_tables") (object end) d k) (λ table_list e l. l)

  ask-keeps :
      (tools : List ToolParam) (prompt q : Str) (c : McpToolClient W)
      → P c.world
      → P (ask show show_url loads env K tools prompt q c).1.world
  ask-keeps tools prompt q c h =
      run_agent_loop-keeps (chat show show_url loads env K tools)
        (tool_executor (call_tool K.session_call)) (λ d. P d.world)
        (λ name args d k. unfold tool_executor in call_tool-keeps name args d k)
        (λ ms d sendable k. chat_fn-keeps (client_settings env) (model_name env) tools ms d.world k)
        q prompt max_iterations_default c h

  converse-keeps :
      (inputs : List Str) (x : Result (List ToolParam × Str) × McpToolClient W)
      → P x.1.world
      → P (converse show show_url loads env K inputs x).world.world
  converse-keeps inputs (err e, c) h = h
  converse-keeps inputs (ok (tools, prompt), c) h =
      session-keeps show (ask show show_url loads env K tools prompt)
        (unreachable show show_url loads env K) (λ d. P d.world) (ask-keeps tools prompt) inputs c h

  entered-keeps :
      (inputs : List Str) (x : Result (Unit {0}) × McpToolClient W)
      → P x.1.world
      → P (entered show show_url loads env K inputs x).world.world
  entered-keeps inputs (err e, c) h = h
  entered-keeps inputs (ok u, c) h =
      leave-keeps _
        (converse-keeps inputs (prepare show show_url loads env K c) (prepare-keeps c h))

  -- Whatever every call of the host outside the repository keeps, a whole chat keeps, however it
  -- goes.
  pub amain-keeps :
      (inputs : List Str) (w : W) → P w → P (amain show show_url loads env K inputs w).world.world
  unfolding amain
  amain-keeps inputs w h = entered-keeps inputs _ (enter-keeps (new_client w) h)
