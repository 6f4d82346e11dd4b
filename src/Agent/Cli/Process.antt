-- ===== src/Agent/Cli/Process.antt =====
-- The process of the MCP server, from `_amain`'s start to its end.
use open_warehouse_agent.Py.Env.{Env}
use open_warehouse_agent.Py.Str.{Str, strip, is_empty}
use open_warehouse_agent.Py.Json.{Json}
use open_warehouse_agent.Py.Result.{Exc, Result, ok, err}
use open_warehouse_agent.Py.Exec.{Exec}
use open_warehouse_agent.Agent.Loop.{AgentResult, max_iterations_default}
use open_warehouse_agent.Agent.Loop.Protocol.{run_agent_loop-keeps}
use open_warehouse_agent.Agent.LlmClient.{ToolParam}
use open_warehouse_agent.Agent.McpClient.{McpToolClient, enter, leave, list_tools, call_tool}
use open_warehouse_agent.Agent.Cli.{
  tool_executor, Transcript, proceed, Reply, lines, crash, session,
}
use open_warehouse_agent.Agent.Cli.Startup.{
  Sdk, new_client, chat, unreachable, prepare, ask, converse, entered, amain,
}
use open_warehouse_agent.Base.{
  ◌≡◌, sym, inl, inr, true, some, List, [], ◌∷◌, arith, Bool-cases, subst,
}

module _ (show : Json → Str) {W : Type 0} (question : Str → Exec W AgentResult) (hint : Str)
    (P : W → Type 0) where
  proceed-keeps :
      (r : Reply show) (v : W) (rest : W → Transcript show W)
      → P v
      → P (rest v).world
      → P (proceed show question hint (r, v) rest).world
  proceed-keeps (crash e) v rest h k = h
  proceed-keeps (lines ls) v rest h k = k

  -- A session keeps what every question keeps, whether it ends or is ended.
  pub session-keeps :
      ((q : Str) (w : W) → P w → P (question q w).1)
      → (inputs : List Str) (w : W) → P w
      → P (session show question hint inputs w).world
  unfolding session
  session-keeps keeps [] w h = h
  session-keeps keeps (input ∷ inputs) w h = elim (Bool-cases (is_empty (strip input))) [
    | inl e ↦ rw (e, session) (session-keeps keeps inputs w h)
    | inr e ↦
        rw (e, session)
          (proceed-keeps _ (question (strip input) w).1 (session show question hint inputs)
            (keeps (strip input) w h) (session-keeps keeps inputs _ (keeps (strip input) w h)))
  ]

module _ (show : Json → Str) (show_url : Str → Str) (loads : Str → Result Json) (env : Env)
    {W : Type 0} (K : Sdk W) where
  abbrev HasStack : McpToolClient W → Type 0
  HasStack c = c.stack ≡ true

  call_tool-HasStack :
      (name : Str) (args : Json) (c : McpToolClient W)
      → HasStack c
      → HasStack (call_tool K.session_call name args c).1
  unfolding call_tool
  call_tool-HasStack name args c h = ground arith

  prepare-HasStack :
      (c : McpToolClient W) → HasStack c → HasStack (prepare show show_url loads env K c).1
  unfolding prepare list_tools call_tool
  prepare-HasStack c h = ground arith

  ask-HasStack :
      (tools : List ToolParam) (prompt q : Str) (c : McpToolClient W)
      → HasStack c
      → HasStack (ask show show_url loads env K tools prompt q c).1
  ask-HasStack tools prompt q c h =
      run_agent_loop-keeps (chat show show_url loads env K tools)
        (tool_executor (call_tool K.session_call)) HasStack tool_kept (λ ms d sendable k. k) q
        prompt max_iterations_default c h
    where
      tool_kept :
          (name : Str) (args : Json) (d : McpToolClient W)
          → HasStack d
          → HasStack (tool_executor (call_tool K.session_call) name args d).1
      tool_kept name args d k = unfold tool_executor in call_tool-HasStack name args d k

  converse-HasStack :
      (inputs : List Str) (x : Result (List ToolParam × Str) × McpToolClient W)
      → HasStack x.1
      → HasStack (converse show show_url loads env K inputs x).world
  converse-HasStack inputs (err e, c) h = h
  converse-HasStack inputs (ok (tools, prompt), c) h =
      session-keeps show (ask show show_url loads env K tools prompt)
        (unreachable show show_url loads env K) HasStack (ask-HasStack tools prompt) inputs c h

  enter-HasStack :
      (c : McpToolClient W) → HasStack (enter K.stdio_client K.client_session K.initialize c).1
  unfolding enter
  enter-HasStack c = ground arith

  leave-of_stack :
      (c : McpToolClient W) → HasStack c → (leave K.aclose c).1.world ≡ (K.aclose c.world).1
  unfolding leave
  leave-of_stack c h = ground arith

  -- Once the client is entered, however the session goes, the last thing that is done to the world
  -- is to close the session and the server's process: what that brings about holds at the end.
  pub amain-closes :
      (P : W → Type 0)
      → ((w : W) → P (K.aclose w).1)
      → (inputs : List Str) (w : W)
      → (enter K.stdio_client K.client_session K.initialize (new_client w)).0 ≡ ok tt
      → P (amain show show_url loads env K inputs w).world.world
  unfolding amain
  amain-closes P closes inputs w h =
      go (enter K.stdio_client K.client_session K.initialize (new_client w)) h
        (enter-HasStack (new_client w))
    where
      go :
          (x : Result (Unit {0}) × McpToolClient W)
          → x.0 ≡ ok tt
          → HasStack x.1
          → P (entered show show_url loads env K inputs x).world.world
      go (err e, c) q k = absurd (cc)
      go (ok u, c) q k =
          subst P (sym (leave-of_stack _ (converse-HasStack inputs _ (prepare-HasStack c k))))
            (closes _)

  -- If the greeting of the server raises, the host ends with that exception, and neither the
  -- session nor the process that were started is closed.
  pub amain-unclosed :
      (inputs : List Str) (w : W) (e : Exc)
      → (K.stdio_client w).0 ≡ ok tt
      → (K.client_session (K.stdio_client w).1).0 ≡ ok tt
      → (K.initialize (K.client_session (K.stdio_client w).1).1).0 ≡ err e
      → ((amain show show_url loads env K inputs w).crashed ≡ some e)
        × ((amain show show_url loads env K inputs w).world.world
            ≡ (K.initialize (K.client_session (K.stdio_client w).1).1).1)
  unfolding amain enter
  amain-unclosed inputs w e a b c = ground arith
