-- ===== src/Agent/Loop/Traces.antt =====
-- What the tool calls of an answer say about the world.
use open_warehouse_agent.Py.Str.{Str}
use open_warehouse_agent.Py.Json.{Json}
use open_warehouse_agent.Py.Result.{Exc, Result, ok, err}
use open_warehouse_agent.Py.Exec.{Exec, Leaves, continue-Leaves}
use open_warehouse_agent.Agent.Loop.{
  Call, ChatResponse, Message, AgentResult, ToolCallRecord, Progress, is_blank, run_tools, Outcome,
  again, answer, respond, round, go_on, rounds, run_agent_loop,
}
use open_warehouse_agent.Base.{
  ℕ, zero, suc, ◌≡◌, refl, inl, inr, not, ◌&&◌, List, [], ◌∷◌, ◌++◌, Bool-cases, subst,
}

-- What holds of a run that returns holds if it holds of that value and state.
Leaves-of_ok :
    {S A : Type 0} (R : A → S → Type 0) (x : Result A × S)
    → ((a : A) (s : S) → x ≡ (ok a, s) → R a s)
    → Leaves R (λ s. Unit {0}) x
Leaves-of_ok R (ok a, s) h = h a s refl
Leaves-of_ok R (err e, s) h = tt

-- `T` relates the tool calls made so far to the world. Calls of the model keep it, and a tool that
-- returns brings it about for its own call.
module _ {W : Type 0} (chat_fn : List Message → Exec W ChatResponse)
    (tool_executor : Str → Json → Exec W Str) (T : List ToolCallRecord → W → Type 0)
    (chats : (made : List ToolCallRecord) (ms : List Message) (w : W)
      → T made w
      → T made (chat_fn ms w).1)
    (tools : (made : List ToolCallRecord) (name : Str) (args : Json) (result : Str) (w v : W)
      → T made w
      → tool_executor name args w ≡ (ok result, v)
      → T (made ++ (record { name = name; arguments = args; result = result } ∷ [])) v) where
  abbrev OfProgress : Progress → W → Type 0
  OfProgress p w = T p.tool_calls_made w

  abbrev OfOutcome : Outcome chat_fn tool_executor → W → Type 0
  OfOutcome (again q) w = T q.tool_calls_made w
  OfOutcome (answer r) w = T r.tool_calls w

  abbrev Nothing : W → Type 0
  Nothing w = Unit {0}

  run_tools-Leaves :
      (cs : List Call) (p : Progress) (w : W)
      → T p.tool_calls_made w
      → Leaves OfProgress Nothing (run_tools chat_fn tool_executor cs p w)
  unfolding run_tools
  run_tools-Leaves [] p w h = h
  run_tools-Leaves (c ∷ cs) p w h =
      continue-Leaves
        (λ result v.
          T
            (p.tool_calls_made
              ++ (record { name = c.name; arguments = c.arguments; result = result } ∷ []))
            v)
        OfProgress Nothing (tool_executor c.name c.arguments w) _
        (Leaves-of_ok _ (tool_executor c.name c.arguments w)
          (λ result v e. tools p.tool_calls_made c.name c.arguments result w v h e))
        (λ result v k. run_tools-Leaves cs _ v k)

  respond-Leaves :
      (response : ChatResponse) (cs : List Call) (content : Str) (p : Progress) (w : W)
      → T p.tool_calls_made w
      → Leaves OfOutcome Nothing (respond chat_fn tool_executor response cs content p w)
  unfolding respond
  respond-Leaves response [] content p w h =
      elim (Bool-cases (is_blank content && not p.already_retried_empty)) [
        | inl e ↦ rw e h
        | inr e ↦ rw e h
      ]
  respond-Leaves response (c ∷ cs) content p w h =
      continue-Leaves OfProgress OfOutcome Nothing (run_tools chat_fn tool_executor (c ∷ cs) _ w) _
        (run_tools-Leaves (c ∷ cs) _ w h) (λ q v k. k)

  go_on-Leaves :
      (rest : Progress → Exec W AgentResult) (x : Result (Outcome chat_fn tool_executor) × W)
      → Leaves OfOutcome Nothing x
      → ((q : Progress) (v : W)
          → T q.tool_calls_made v
          → Leaves (λ r v. T r.tool_calls v) Nothing (rest q v))
      → Leaves (λ r v. T r.tool_calls v) Nothing (go_on chat_fn tool_executor rest x)
  go_on-Leaves rest (err e, v) h k = tt
  go_on-Leaves rest (ok (answer r), v) h k = h
  go_on-Leaves rest (ok (again q), v) h k = k q v h

  rounds-Leaves :
      (exhausted : Exc) (n : ℕ) (p : Progress) (w : W)
      → T p.tool_calls_made w
      → Leaves (λ r v. T r.tool_calls v) Nothing (rounds chat_fn tool_executor exhausted n p w)
  unfolding rounds round
  rounds-Leaves exhausted zero p w h = tt
  rounds-Leaves exhausted (suc n) p w h =
      go_on-Leaves (rounds chat_fn tool_executor exhausted n) _
        (continue-Leaves (λ response v. T p.tool_calls_made v) OfOutcome Nothing
          (chat_fn p.messages w) _
          (Leaves-of_ok _ (chat_fn p.messages w) (λ response v e.
            subst (λ x. T p.tool_calls_made x.1) e (chats p.tool_calls_made p.messages w h)))
          (λ response v k. respond-Leaves response _ _ p v k))
        (rounds-Leaves exhausted n)

  -- If it holds of no calls at the start, it holds of the calls of the answer at the end.
  pub run_agent_loop-Leaves :
      (question system_prompt : Str) (max_iterations : ℕ) (w : W)
      → T [] w
      → Leaves
          (λ r v. T r.tool_calls v)
          (λ v. Unit {0})
          (run_agent_loop chat_fn tool_executor question system_prompt max_iterations w)
  unfolding run_agent_loop
  run_agent_loop-Leaves question system_prompt n w h = rounds-Leaves _ n _ w h
