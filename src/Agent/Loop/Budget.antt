-- ===== src/Agent/Loop/Budget.antt =====
-- How often the model is called, and how the loop can end.
use open_warehouse_agent.Py.Str.{Str}
use open_warehouse_agent.Py.Json.{Json}
use open_warehouse_agent.Py.Result.{Exc, Result, ok, err}
use open_warehouse_agent.Py.Exec.{
  Exec, continue, RaisesOnly, RaisesOnly-of_Safe, Safe-of_RaisesOnly,
}
use open_warehouse_agent.Agent.Loop.Ends.{run_agent_loop-Safe}
use open_warehouse_agent.Agent.Loop.{
  Call, ChatResponse, Message, AgentResult, Progress, run_tools, Outcome, again, answer, respond,
  round, go_on, rounds, start, exceeded, run_agent_loop,
}
use open_warehouse_agent.Agent.Loop.Observed.{Observed, observe_chat, observe_tool, unobserved}
use open_warehouse_agent.Base.{ℕ, zero, suc, ◌+◌, ◌≤◌, ◌≡◌, refl, ◌∙◌, ◌⊎◌, List, [], ◌∷◌, arith}

-- A measure of the state that the rest of a run keeps.
continue-measure :
    {S A B : Type 0} (g : S → ℕ) (x : Result A × S) (f : A → Exec S B)
    → ((a : A) (s : S) → g (f a s).1 ≡ g s)
    → g (continue x f).1 ≡ g x.1
continue-measure g (ok a, s) f h = h a s
continue-measure g (err e, s) f h = refl

module _ {W : Type 0} (chat_fn : List Message → Exec W ChatResponse)
    (tool_executor : Str → Json → Exec W Str) where
  abbrev chat : List Message → Exec (Observed W) ChatResponse
  chat = observe_chat chat_fn

  abbrev tools : Str → Json → Exec (Observed W) Str
  tools = observe_tool tool_executor

  abbrev chats_of : Observed W → ℕ
  chats_of o = o.chats

  run_tools-chats :
      (cs : List Call) (p : Progress) (o : Observed W)
      → (run_tools chat tools cs p o).1.chats ≡ o.chats
  unfolding run_tools observe_tool
  run_tools-chats [] p o = refl
  run_tools-chats (c ∷ cs) p o =
      continue-measure chats_of (tools c.name c.arguments o) _ λ result v. run_tools-chats cs _ v

  respond-chats :
      (response : ChatResponse) (cs : List Call) (content : Str) (p : Progress) (o : Observed W)
      → (respond chat tools response cs content p o).1.chats ≡ o.chats
  unfolding respond
  respond-chats response [] content p o = ground arith
  respond-chats response (c ∷ cs) content p o =
      continue-measure chats_of (run_tools chat tools (c ∷ cs) _ o) _ (λ q v. refl)
      ∙ run_tools-chats (c ∷ cs) _ o

  round-chats : (p : Progress) (o : Observed W) → (round chat tools p o).1.chats ≡ o.chats + 1
  unfolding round observe_chat
  round-chats p o =
      continue-measure chats_of (chat p.messages o) _ λ response v. respond-chats response _ _ p v

  go_on-chats :
      (n : ℕ) (rest : Progress → Exec (Observed W) AgentResult)
      → (x : Result (Outcome chat tools) × Observed W)
      → ((q : Progress) (v : Observed W) → (rest q v).1.chats ≤ v.chats + n)
      → (go_on chat tools rest x).1.chats ≤ x.1.chats + n
  go_on-chats n rest (err e, v) h = omega arith
  go_on-chats n rest (ok (answer r), v) h = omega arith
  go_on-chats n rest (ok (again q), v) h = h q v

  rounds-chats :
      (e : Exc) (n : ℕ) (p : Progress) (o : Observed W)
      → (rounds chat tools e n p o).1.chats ≤ o.chats + n
  unfolding rounds
  rounds-chats e zero p o = omega arith
  rounds-chats e (suc n) p o = omega (
    arith,
    go_on-chats n (rounds chat tools e n) (round chat tools p o) (rounds-chats e n),
    round-chats p o,
  )

  -- The model is called at most `max_iterations` times for one question.
  pub run_agent_loop-chats :
      (question system_prompt : Str) (max_iterations : ℕ) (w : W)
      → (run_agent_loop chat tools question system_prompt max_iterations (unobserved w)).1.chats
        ≤ max_iterations
  unfolding run_agent_loop
  run_agent_loop-chats question system_prompt n w = omega (
    arith,
    rounds-chats (exceeded chat tools n) n (start chat tools system_prompt question) (unobserved w),
  )

module _ {W : Type 0} (chat_fn : List Message → Exec W ChatResponse)
    (tool_executor : Str → Json → Exec W Str) (E : Exc → Type 0)
    (chat_raises : (ms : List Message) (w : W) → RaisesOnly E (chat_fn ms w))
    (tool_raises : (name : Str) (args : Json) (w : W)
      → RaisesOnly E (tool_executor name args w)) where
  -- The loop always ends: with an answer, with its own error that the iterations are used up, or
  -- with what the model or a tool raised.
  pub run_agent_loop-ends :
      (question system_prompt : Str) (max_iterations : ℕ) (w : W)
      → RaisesOnly
          (λ e. (e ≡ exceeded chat_fn tool_executor max_iterations) ⊎ E e)
          (run_agent_loop chat_fn tool_executor question system_prompt max_iterations w)
  run_agent_loop-ends question system_prompt n w =
      RaisesOnly-of_Safe _ (λ v. Unit {0}) _
        (run_agent_loop-Safe chat_fn tool_executor E (λ v. Unit {0})
          (λ ms v _. Safe-of_RaisesOnly E (chat_fn ms v) (chat_raises ms v))
          (λ name args v _.
            Safe-of_RaisesOnly E (tool_executor name args v) (tool_raises name args v))
          question system_prompt n w tt)
