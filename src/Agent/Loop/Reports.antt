-- ===== src/Agent/Loop/Reports.antt =====
-- What an answer reports.
use open_warehouse_agent.Py.Str.{Str}
use open_warehouse_agent.Py.Json.{Json}
use open_warehouse_agent.Py.Result.{Exc, Result, ok, err}
use open_warehouse_agent.Py.Exec.{Exec, Leaves, continue-Leaves, Leaves_of_ok}
use open_warehouse_agent.Agent.Loop.{
  Call, ChatResponse, Message, AgentResult, Progress, is_blank, run_tools, Outcome, again, answer,
  respond, round, go_on, rounds, start, exceeded, run_agent_loop,
}
use open_warehouse_agent.Agent.Loop.Observed.{
  Observed, observe_chat, logged, observe_tool, unobserved,
}
use open_warehouse_agent.Base.{
  ℕ, zero, suc, ◌+◌, ◌≤◌, ◌≡◌, refl, ◌⊎◌, inl, inr, true, false, not, ◌&&◌, List, [], ◌∷◌, ◌++◌,
  arith, Bool-cases,
}

module _ {W : Type 0} (chat_fn : List Message → Exec W ChatResponse)
    (tool_executor : Str → Json → Exec W Str) where
  abbrev Seen : Type 0
  Seen = Observed W

  abbrev chat : List Message → Exec Seen ChatResponse
  chat = observe_chat chat_fn

  abbrev tools : Str → Json → Exec Seen Str
  tools = observe_tool tool_executor

  -- Between rounds: the records are those of the calls made, and a retry needs a chat before it.
  abbrev Agrees : Progress → Seen → Type 0
  Agrees p o = (p.tool_calls_made ≡ o.executed) × (p.already_retried_empty ≡ true → 1 ≤ o.chats)

  -- The same after the chat of a round.
  abbrev Chatted : Progress → Seen → Type 0
  Chatted p o =
      (p.tool_calls_made ≡ o.executed)
      × (1 ≤ o.chats)
      × (p.already_retried_empty ≡ true → 2 ≤ o.chats)

  -- What an answer says of what was seen.
  abbrev pub Reports : AgentResult → Seen → Type 0
  Reports r o = (r.tool_calls ≡ o.executed) × ((is_blank r.answer ≡ false) ⊎ (2 ≤ o.chats))

  abbrev Ended : Outcome chat tools → Seen → Type 0
  Ended (again q) o = Agrees q o
  Ended (answer r) o = Reports r o

  abbrev Anything : Seen → Type 0
  Anything o = Unit

  tools-logged :
      (c : Call) (o : Seen)
      → Leaves
          (λ result v.
            (v.executed
              ≡ o.executed
                ++ (record { name = c.name; arguments = c.arguments; result = result } ∷ []))
            × (v.chats ≡ o.chats))
          Anything
          (tools c.name c.arguments o)
  unfolding observe_tool
  tools-logged c o = after (tool_executor c.name c.arguments o.world)
    where
      after :
          (x : Result Str × W)
          → Leaves
              (λ result v.
                (v.executed
                  ≡ o.executed
                    ++ (record { name = c.name; arguments = c.arguments; result = result } ∷ []))
                × (v.chats ≡ o.chats))
              Anything
              (x.0, record o { world = x.1; executed = logged c.name c.arguments x.0 o.executed })
      after (ok s, w) = (refl, refl)
      after (err e, w) = tt

  run_tools-Chatted :
      (cs : List Call) (p : Progress) (o : Seen)
      → Chatted p o
      → Leaves Chatted Anything (run_tools chat tools cs p o)
  unfolding run_tools
  run_tools-Chatted [] p o h = h
  run_tools-Chatted (c ∷ cs) p o h =
      continue-Leaves _ Chatted Anything (tools c.name c.arguments o) _ (tools-logged c o)
        λ result v e. run_tools-Chatted cs _ v (ground arith)

  respond-Ended :
      (response : ChatResponse) (cs : List Call) (content : Str) (p : Progress) (o : Seen)
      → Chatted p o
      → Leaves Ended Anything (respond chat tools response cs content p o)
  unfolding respond
  respond-Ended response [] content p o h =
      elim (Bool-cases (is_blank content && not p.already_retried_empty)) [
        | inl e ↦ rw e (ground arith)
        | inr e ↦ rw e (ground arith)
      ]
  respond-Ended response (c ∷ cs) content p o h =
      continue-Leaves Chatted Ended Anything _ _ (run_tools-Chatted (c ∷ cs) _ o h)
        λ q v k. ground arith

  chat-Chatted :
      (p : Progress) (o : Seen)
      → Agrees p o
      → Leaves (λ r v. Chatted p v) Anything (chat p.messages o)
  unfolding observe_chat
  chat-Chatted p o h = after (chat_fn p.messages o.world)
    where
      after :
          (x : Result ChatResponse × W)
          → Leaves
              (λ r v. Chatted p v)
              Anything
              (x.0, record o { world = x.1; chats = o.chats + 1 })
      after (ok r, w) = ground arith
      after (err e, w) = tt

  round-Ended :
      (p : Progress) (o : Seen) → Agrees p o → Leaves Ended Anything (round chat tools p o)
  unfolding round
  round-Ended p o h =
      continue-Leaves (λ r v. Chatted p v) Ended Anything (chat p.messages o) _ (chat-Chatted p o h)
        λ response v k. respond-Ended response _ _ p v k

  go_on-Reports :
      (rest : Progress → Exec Seen AgentResult) (x : Result (Outcome chat tools) × Seen)
      → Leaves Ended Anything x
      → ((q : Progress) (v : Seen) → Agrees q v → Leaves Reports Anything (rest q v))
      → Leaves Reports Anything (go_on chat tools rest x)
  go_on-Reports rest (err e, v) h k = tt
  go_on-Reports rest (ok (answer r), v) h k = h
  go_on-Reports rest (ok (again q), v) h k = k q v h

  rounds-Reports :
      (e : Exc) (n : ℕ) (p : Progress) (o : Seen)
      → Agrees p o
      → Leaves Reports Anything (rounds chat tools e n p o)
  unfolding rounds
  rounds-Reports e zero p o h = tt
  rounds-Reports e (suc n) p o h =
      go_on-Reports (rounds chat tools e n) _ (round-Ended p o h) λ q v k. rounds-Reports e n q v k

  -- An answer lists the tool calls that were made, all of them, in order and with their results;
  -- and a blank answer is given only after a retry, so after two calls of the model at least.
  pub run_agent_loop-Reports :
      (question system_prompt : Str) (max_iterations : ℕ) (w : W) (r : AgentResult)
      → (run_agent_loop chat tools question system_prompt max_iterations (unobserved w)).0 ≡ ok r
      → Reports r (run_agent_loop chat tools question system_prompt max_iterations (unobserved w)).1
  run_agent_loop-Reports question system_prompt n w r h =
      Leaves_of_ok Reports Anything
        (run_agent_loop chat tools question system_prompt n (unobserved w)) r
        (unfold run_agent_loop in
          rounds-Reports (exceeded chat tools n) n (start chat tools system_prompt question)
            (unobserved w) (refl, λ e. cc))
        h
