-- ===== src/Agent/Loop/Ends.antt =====
-- How the loop can end, from a state in which something holds that the model and the tools keep.
use open_warehouse_agent.Py.Str.{Str}
use open_warehouse_agent.Py.Json.{Json}
use open_warehouse_agent.Py.Result.{Exc, Result, ok, err}
use open_warehouse_agent.Py.Exec.{Exec, Safe, continue-Safe}
use open_warehouse_agent.Agent.Loop.{
  Call, ChatResponse, Message, AgentResult, Progress, is_blank, run_tools, Outcome, again, answer,
  respond, round, go_on, rounds, start, exceeded, run_agent_loop,
}
use open_warehouse_agent.Base.{
  ℕ, zero, suc, ◌≡◌, refl, ◌⊎◌, inl, inr, not, ◌&&◌, List, [], ◌∷◌, Bool-cases,
}

module _ {W : Type 0} (chat_fn : List Message → Exec W ChatResponse)
    (tool_executor : Str → Json → Exec W Str) (E : Exc → Type 0) (P : W → Type 0)
    (chat_safe : (ms : List Message) (w : W) → P w → Safe E P (chat_fn ms w))
    (tool_safe : (name : Str) (args : Json) (w : W)
      → P w
      → Safe E P (tool_executor name args w)) where
  run_tools-Safe :
      (cs : List Call) (p : Progress) (w : W)
      → P w
      → Safe E P (run_tools chat_fn tool_executor cs p w)
  unfolding run_tools
  run_tools-Safe [] p w h = h
  run_tools-Safe (c ∷ cs) p w h =
      continue-Safe E P (tool_executor c.name c.arguments w) _ (tool_safe c.name c.arguments w h)
        λ result v k. run_tools-Safe cs _ v k

  respond-Safe :
      (response : ChatResponse) (cs : List Call) (content : Str) (p : Progress) (w : W)
      → P w
      → Safe E P (respond chat_fn tool_executor response cs content p w)
  unfolding respond
  respond-Safe response [] content p w h =
      elim (Bool-cases (is_blank content && not p.already_retried_empty)) [
        | inl e ↦ rw e h
        | inr e ↦ rw e h
      ]
  respond-Safe response (c ∷ cs) content p w h =
      continue-Safe E P (run_tools chat_fn tool_executor (c ∷ cs) _ w) _
        (run_tools-Safe (c ∷ cs) _ w h) (λ q v k. k)

  -- The loop raises its own error, or what the model or a tool does.
  abbrev pub Raised : Exc → Exc → Type 0
  Raised exhausted e = (e ≡ exhausted) ⊎ E e

  go_on-Safe :
      (exhausted : Exc) (rest : Progress → Exec W AgentResult)
      → (x : Result (Outcome chat_fn tool_executor) × W) → Safe E P x
      → ((q : Progress) (v : W) → P v → Safe (Raised exhausted) P (rest q v))
      → Safe (Raised exhausted) P (go_on chat_fn tool_executor rest x)
  go_on-Safe exhausted rest (err e, v) h k = (inr h.0, h.1)
  go_on-Safe exhausted rest (ok (answer r), v) h k = h
  go_on-Safe exhausted rest (ok (again q), v) h k = k q v h

  rounds-Safe :
      (exhausted : Exc) (n : ℕ) (p : Progress) (w : W)
      → P w
      → Safe (Raised exhausted) P (rounds chat_fn tool_executor exhausted n p w)
  unfolding rounds round
  rounds-Safe exhausted zero p w h = (inl refl, h)
  rounds-Safe exhausted (suc n) p w h =
      go_on-Safe exhausted _ _
        (continue-Safe E P (chat_fn p.messages w) _ (chat_safe p.messages w h)
          λ response v k. respond-Safe response _ _ p v k)
        (rounds-Safe exhausted n)

  -- The loop keeps what the model and the tools keep, and ends with an answer, with its own error
  -- that the iterations are used up, or with what the model or a tool raised.
  pub run_agent_loop-Safe :
      (question system_prompt : Str) (max_iterations : ℕ) (w : W)
      → P w
      → Safe
          (Raised (exceeded chat_fn tool_executor max_iterations))
          P
          (run_agent_loop chat_fn tool_executor question system_prompt max_iterations w)
  unfolding run_agent_loop
  run_agent_loop-Safe question system_prompt n w h =
      rounds-Safe (exceeded chat_fn tool_executor n) n
        (start chat_fn tool_executor system_prompt question) w h
