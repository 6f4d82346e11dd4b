-- ===== src/Agent/Cli/Session.antt =====
-- Which failures a chat session survives.
use open_warehouse_agent.Py.Str.{Str, strip, is_empty}
use open_warehouse_agent.Py.Json.{Json}
use open_warehouse_agent.Py.Result.{
  Exc, api_connection_error, agent_loop_error, tool_execution_error, Result, ok, err,
}
use open_warehouse_agent.Py.Exec.{Exec, RaisesOnly, Safe, Safe-of_RaisesOnly}
use open_warehouse_agent.Agent.Loop.{ChatResponse, Message, AgentResult, run_agent_loop, exceeded}
use open_warehouse_agent.Agent.Loop.Ends.{run_agent_loop-Safe}
use open_warehouse_agent.Agent.Cli.{
  tool_executor, caught, crash, reply, Transcript, proceed, session,
}
use open_warehouse_agent.Base.{
  ℕ, ◌≡◌, refl, sym, ◌⊎◌, inl, inr, false, none, some, List, [], ◌∷◌, Bool-cases, subst,
}

-- The exceptions that the host prints and goes on after.
abbrev pub IsHandled : Exc → Type 0
IsHandled (api_connection_error m) = Unit
IsHandled (agent_loop_error m) = Unit
IsHandled (tool_execution_error m) = Unit
IsHandled e = ⊥

module _ (show : Json → Str) {W : Type 0} (ask : Str → Exec W AgentResult) (unreachable : Str) where
  module _ (P : W → Type 0) where
    abbrev pub Survives : Transcript show W → Type 0
    Survives t = (t.crashed ≡ none) × P t.world

    proceed-Survives :
        (x : Result AgentResult × W) (rest : W → Transcript show W)
        → Safe IsHandled P x
        → ((v : W) → P v → Survives (rest v))
        → Survives (proceed show ask unreachable (reply show unreachable x.0, x.1) rest)
    unfolding reply
    proceed-Survives (ok r, v) rest h k = k v h
    proceed-Survives (err (api_connection_error m), v) rest h k = k v h.1
    proceed-Survives (err (agent_loop_error m), v) rest h k = k v h.1
    proceed-Survives (err (tool_execution_error m), v) rest h k = k v h.1
    proceed-Survives (err e, v) rest h k = absurd h.0

    -- If asking raises handled exceptions only, no question ends the session.
    pub session-Survives :
        ((q : Str) (w : W) → P w → Safe IsHandled P (ask q w))
        → (inputs : List Str) (w : W) → P w
        → Survives (session show ask unreachable inputs w)
    unfolding session
    session-Survives h [] w k = (refl, k)
    session-Survives h (input ∷ inputs) w k = elim (Bool-cases (is_empty (strip input))) [
      | inl e ↦ rw (e, session) (session-Survives h inputs w k)
      | inr e ↦
          rw (e, session)
            (proceed-Survives (ask (strip input) w) (session show ask unreachable inputs)
              (h (strip input) w k) (session-Survives h inputs))
    ]

  reply-crash : (e : Exc) → ¬ IsHandled e → reply show unreachable (err e) ≡ crash e
  unfolding reply
  reply-crash (api_connection_error m) h = absurd (h tt)
  reply-crash (agent_loop_error m) h = absurd (h tt)
  reply-crash (tool_execution_error m) h = absurd (h tt)
  reply-crash e h = refl

  -- A question whose asking raises anything else ends the session: nothing is printed for it, and
  -- the lines that were to follow are never read.
  pub session-crashes :
      (input : Str) (inputs : List Str) (w : W) (e : Exc)
      → is_empty (strip input) ≡ false
      → (ask (strip input) w).0 ≡ err e
      → ¬ IsHandled e
      → session show ask unreachable (input ∷ inputs) w
        ≡ record { printed = []; crashed = some e; world = (ask (strip input) w).1 }
  unfolding session
  session-crashes input inputs w e b a h = rw (b, session) (rw (a, reply-crash e h) refl)

-- The exception of a model that cannot be reached.
abbrev pub IsUnreachable : Exc → Type 0
IsUnreachable (api_connection_error m) = Unit
IsUnreachable e = ⊥

-- The exception of a tool call that failed.
abbrev pub IsToolFailure : Exc → Type 0
IsToolFailure (tool_execution_error m) = Unit
IsToolFailure e = ⊥

module _ (show : Json → Str) {W : Type 0} (chat_fn : List Message → Exec W ChatResponse)
    (call_tool : Str → Json → Exec W Str) (P : W → Type 0)
    (chat_safe : (ms : List Message) (w : W) → P w → Safe IsUnreachable P (chat_fn ms w))
    (tool_safe : (name : Str) (args : Json) (w : W)
      → P w
      → Safe IsToolFailure P (call_tool name args w)) where
  tool_executor-Safe :
      (name : Str) (args : Json) (w : W)
      → P w
      → Safe IsUnreachable P (tool_executor call_tool name args w)
  unfolding tool_executor
  tool_executor-Safe name args w p = quiet (call_tool name args w) (tool_safe name args w p)
    where
      quiet : (x : Result Str × W) → Safe IsToolFailure P x → Safe IsUnreachable P (caught x.0, x.1)
      quiet (ok s, v) h = h
      quiet (err (tool_execution_error m), v) h = h.1
      quiet (err e, v) h = absurd h.0

  -- The host over the loop, from a state in which something holds that the model and the tools keep.
  pub host-Survives :
      (unreachable system_prompt : Str) (max_iterations : ℕ) (inputs : List Str) (w : W)
      → P w
      → Survives show
          (λ q. run_agent_loop chat_fn (tool_executor call_tool) q system_prompt max_iterations)
          unreachable
          P
          (session show
            (λ q. run_agent_loop chat_fn (tool_executor call_tool) q system_prompt max_iterations)
            unreachable
            inputs
            w)
  host-Survives unreachable system_prompt n inputs w p =
      session-Survives show _ unreachable P
        (λ q v k. handled _ (
          run_agent_loop-Safe chat_fn (tool_executor call_tool) IsUnreachable P chat_safe
            tool_executor-Safe q system_prompt n v k))
        inputs w p
    where
      weaken :
          (e : Exc)
          → (e ≡ exceeded chat_fn (tool_executor call_tool) n) ⊎ IsUnreachable e
          → IsHandled e
      weaken e (inl p) = subst IsHandled (sym p) tt
      weaken (api_connection_error m) (inr u) = tt
      weaken e (inr u) = absurd u

      handled :
          (x : Result AgentResult × W)
          → Safe (λ e. (e ≡ exceeded chat_fn (tool_executor call_tool) n) ⊎ IsUnreachable e) P x
          → Safe IsHandled P x
      handled (ok r, v) h = h
      handled (err e, v) h = (weaken e h.0, h.1)

module _ (show : Json → Str) {W : Type 0} (chat_fn : List Message → Exec W ChatResponse)
    (call_tool : Str → Json → Exec W Str)
    (chat_raises : (ms : List Message) (w : W) → RaisesOnly IsUnreachable (chat_fn ms w))
    (tool_raises : (name : Str) (args : Json) (w : W)
      → RaisesOnly IsToolFailure (call_tool name args w)) where
  -- The host over the loop: as long as the model is at worst unreachable and tools at worst fail,
  -- no question ends the session, whatever the model answers.
  pub session-survives :
      (unreachable system_prompt : Str) (max_iterations : ℕ) (inputs : List Str) (w : W)
      → (session show
          (λ q. run_agent_loop chat_fn (tool_executor call_tool) q system_prompt max_iterations)
          unreachable
          inputs
          w).crashed
        ≡ none
  session-survives unreachable system_prompt n inputs w =
      (host-Survives show chat_fn call_tool (λ v. Unit {0})
        (λ ms v _. Safe-of_RaisesOnly IsUnreachable (chat_fn ms v) (chat_raises ms v))
        (λ name args v _.
          Safe-of_RaisesOnly IsToolFailure (call_tool name args v) (tool_raises name args v))
        unreachable system_prompt n inputs w tt).0
