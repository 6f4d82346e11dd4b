-- ===== src/Agent/Loop/Protocol.antt =====
-- The transcripts that the loop sends to the model.
use open_warehouse_agent.Py.Exec.{Exec, continue-Ends, Ends, Ends-of_state}
use open_warehouse_agent.Py.Json.{Json}
use open_warehouse_agent.Py.Result.{Exc, Result, ok, err}
use open_warehouse_agent.Py.Str.{str_eq_refl, Str, str_eq}
use open_warehouse_agent.Agent.Loop.{
  Call, ChatResponse, Message, system, user, assistant, tool, ToolCallRecord, AgentResult, Progress,
  is_blank, run_tools, Outcome, again, answer, respond, round, go_on, rounds, start, run_agent_loop,
  empty_response_retry_message,
}
use open_warehouse_agent.Base.{
  ℕ, zero, suc, ◌+◌, ◌≤◌, if◌then◌else◌, ◌≡◌, refl, ◌∙◌, inl, inr, Bool, true, false, not, ◌&&◌,
  Option, none, some, List, [], ◌∷◌, ◌++◌, arith, Bool-cases,
}

abbrev pub ids : List Call → List Str
ids [] = []
ids (c ∷ cs) = c.id ∷ ids cs

-- Reads a transcript the way a chat API does: the ids are those of the calls that wait for their
-- results, which come next, one for each call and in the same order.
unfoldable pub scan : List Str → List Message → Option (List Str)
scan pending [] = some pending
scan [] (system s ∷ ms) = scan [] ms
scan [] (user s ∷ ms) = scan [] ms
scan [] (assistant c calls ∷ ms) = scan (ids calls) ms
scan (i ∷ pending) (tool id s ∷ ms) = if str_eq i id then scan pending ms else none
scan _ _ = none

unfoldable pub users : List Message → ℕ
users [] = 0
users (user s ∷ ms) = suc (users ms)
users (m ∷ ms) = users ms

-- Every call is followed by its result, and beside the question the user says one thing at most.
abbrev pub Sendable : List Message → Type 0
Sendable ms = (scan [] ms ≡ some []) × (users ms ≤ 2)

scan-append :
    (ms ns : List Message) (pending rest : List Str)
    → scan pending ms ≡ some rest
    → scan pending (ms ++ ns) ≡ scan rest ns
unfolding scan
scan-append [] ns pending rest h = ground arith
scan-append (system s ∷ ms) ns [] rest h = scan-append ms ns [] rest h
scan-append (user s ∷ ms) ns [] rest h = scan-append ms ns [] rest h
scan-append (assistant c calls ∷ ms) ns [] rest h = scan-append ms ns (ids calls) rest h
scan-append (tool id s ∷ ms) ns (i ∷ pending) rest h =
    ground (arith, scan-append ms ns pending rest)
scan-append (m ∷ ms) ns pending rest h = absurd (ground arith)

users-append : (ms ns : List Message) → users (ms ++ ns) ≡ users ms + users ns
unfolding users
users-append [] ns = omega arith
users-append (user s ∷ ms) ns = omega (arith, users-append ms ns)
users-append (m ∷ ms) ns = users-append ms ns

abbrev flag : Bool → ℕ
flag true = 1
flag false = 0

-- Between rounds: no call waits, and the user's messages are the question and the one retry.
abbrev pub IsOpen : Progress → Type 0
IsOpen p = (scan [] p.messages ≡ some []) × (users p.messages ≤ 1 + flag p.already_retried_empty)

IsOpen-Sendable : (p : Progress) → IsOpen p → Sendable p.messages
IsOpen-Sendable p (h, u) = elim (Bool-cases p.already_retried_empty) [
  | inl e ↦ (h, ground arith)
  | inr e ↦ (h, ground arith)
]

-- The calls of a list wait for their results.
abbrev Waits : List Call → Progress → Type 0
Waits cs p =
    (scan [] p.messages ≡ some (ids cs)) × (users p.messages ≤ 1 + flag p.already_retried_empty)

Waits-assistant :
    (p : Progress) (content : Option Str) (cs : List Call)
    → IsOpen p
    → Waits cs (record p { messages = p.messages ++ (assistant content cs ∷ []) })
Waits-assistant p content cs (h, u) = (
  scan-append p.messages (assistant content cs ∷ []) [] [] h ∙ (unfold scan in refl),
  unfold users in omega (arith, users-append p.messages (assistant content cs ∷ [])),
)

Waits-tool :
    (p : Progress) (c : Call) (cs : List Call) (result : Str) (made : List ToolCallRecord)
    → Waits (c ∷ cs) p
    → Waits cs
        (record p { messages = p.messages ++ (tool c.id result ∷ []); tool_calls_made = made })
Waits-tool p c cs result made (h, u) = (
  scan-append p.messages (tool c.id result ∷ []) [] (c.id ∷ ids cs) h
      ∙ (unfold scan in rw (str_eq_refl c.id)),
  unfold users in omega (arith, users-append p.messages (tool c.id result ∷ [])),
)

IsOpen-retry :
    (p : Progress)
    → p.already_retried_empty ≡ false
    → IsOpen p
    → IsOpen (record p {
      messages = p.messages ++ (user empty_response_retry_message ∷ []);
      already_retried_empty = true;
    })
IsOpen-retry p e (h, u) = (
  scan-append p.messages (user empty_response_retry_message ∷ []) [] [] h ∙ (unfold scan in refl),
  unfold users in ground (arith, users-append p.messages (user empty_response_retry_message ∷ [])),
)

module _ {W : Type 0} (chat_fn : List Message → Exec W ChatResponse)
    (tool_executor : Str → Json → Exec W Str) (P : W → Type 0) where
  abbrev OpenOutcome : Outcome chat_fn tool_executor → Type 0
  OpenOutcome (again q) = IsOpen q
  OpenOutcome (answer r) = Unit

  module _
      (tools : (name : Str) (args : Json) (w : W) → P w → P (tool_executor name args w).1) where
    run_tools-Ends :
        (cs : List Call) (p : Progress) (w : W)
        → Waits cs p
        → P w
        → Ends IsOpen P (run_tools chat_fn tool_executor cs p w)
    unfolding run_tools
    run_tools-Ends [] p w h k = (h, k)
    run_tools-Ends (c ∷ cs) p w h k =
        continue-Ends P (λ r. Unit {0}) IsOpen (tool_executor c.name c.arguments w) _
          (Ends-of_state P (tool_executor c.name c.arguments w) (tools c.name c.arguments w k))
          λ result v _ m.
            run_tools-Ends cs _ v
              (Waits-tool p c cs result
                (p.tool_calls_made
                  ++ (record { name = c.name; arguments = c.arguments; result = result } ∷ []))
                h)
              m

    respond-Ends :
        (response : ChatResponse) (cs : List Call) (content : Str) (p : Progress) (w : W)
        → IsOpen p
        → P w
        → Ends OpenOutcome P (respond chat_fn tool_executor response cs content p w)
    unfolding respond
    respond-Ends response [] content p w h k =
        elim (Bool-cases (is_blank content && not p.already_retried_empty)) [
          | inl e ↦ rw e (IsOpen-retry p (ground arith) h, k)
          | inr e ↦ rw e (tt, k)
        ]
    respond-Ends response (c ∷ cs) content p w h k =
        continue-Ends P IsOpen OpenOutcome _ _
          (run_tools-Ends (c ∷ cs) _ w (Waits-assistant p response.content (c ∷ cs) h) k)
          λ q v open_q m. (open_q, m)

    module _ (chat : (ms : List Message) (w : W) → Sendable ms → P w → P (chat_fn ms w).1) where
      round-Ends :
          (p : Progress) (w : W)
          → IsOpen p
          → P w
          → Ends OpenOutcome P (round chat_fn tool_executor p w)
      unfolding round
      round-Ends p w h k =
          continue-Ends P (λ r. Unit {0}) OpenOutcome (chat_fn p.messages w) _
            (Ends-of_state P (chat_fn p.messages w) (chat p.messages w (IsOpen-Sendable p h) k))
            λ response v _ m. respond-Ends response _ _ p v h m

      go_on-keeps :
          (rest : Progress → Exec W AgentResult) (x : Result (Outcome chat_fn tool_executor) × W)
          → Ends OpenOutcome P x
          → ((q : Progress) (v : W) → IsOpen q → P v → P (rest q v).1)
          → P (go_on chat_fn tool_executor rest x).1
      go_on-keeps rest (err e, v) h k = h
      go_on-keeps rest (ok (answer r), v) h k = h.1
      go_on-keeps rest (ok (again q), v) h k = k q v h.0 h.1

      rounds-keeps :
          (e : Exc) (n : ℕ) (p : Progress) (w : W)
          → IsOpen p
          → P w
          → P (rounds chat_fn tool_executor e n p w).1
      unfolding rounds
      rounds-keeps e zero p w h k = k
      rounds-keeps e (suc n) p w h k =
          go_on-keeps (rounds chat_fn tool_executor e n) _ (round-Ends p w h k)
            λ q v open_q m. rounds-keeps e n q v open_q m

      -- What holds of the world at the start, and is kept by every tool call and by every call of
      -- the model with a transcript that is `Sendable`, holds of it at the end, however the loop
      -- ends: the model is sent no other transcripts.
      pub run_agent_loop-keeps :
          (question system_prompt : Str) (max_iterations : ℕ) (w : W)
          → P w
          → P (run_agent_loop chat_fn tool_executor question system_prompt max_iterations w).1
      unfolding run_agent_loop scan users
      run_agent_loop-keeps question system_prompt n w k =
          rounds-keeps _ n (start chat_fn tool_executor system_prompt question) w
            (refl, omega arith) k
