-- ===== src/Agent/Loop.antt =====
-- agent/loop.py: the tool-calling loop over any model and any tools.
pub mod Observed
pub mod Protocol
pub mod Ends
pub mod Budget
pub mod Traces
pub mod Reports
pub mod Prompt
use open_warehouse_agent.Py.Str.{Str, str, strip, is_empty, of_ℕ}
use open_warehouse_agent.Py.Json.{Json}
use open_warehouse_agent.Py.Result.{Exc, agent_loop_error, Result, ok, err}
use open_warehouse_agent.Py.Exec.{◌>>=◌, Exec, continue}
use open_warehouse_agent.Base.{
  ℕ, zero, suc, ◌+◌, if◌then◌else◌, Bool, true, false, not, ◌&&◌, Option, List, [], ◌∷◌, ◌++◌,
  or_default,
}

-- One entry of a response's `tool_calls`.
pub record Call : Type 0 where
  pub id : Str
  pub name : Str
  pub arguments : Json

-- A normalized chat response; `none` is a key that is missing, or `None`.
pub record ChatResponse : Type 0 where
  pub content : Option Str
  pub tool_calls : Option (List Call)

-- A message, by its role.
pub data Message : Type 0 where
  system : Str → Message
  user : Str → Message
  assistant : Option Str → List Call → Message
  tool : Str → Str → Message

pub record ToolCallRecord : Type 0 where
  pub name : Str
  pub arguments : Json
  pub result : Str

pub record AgentResult : Type 0 where
  pub answer : Str
  pub tool_calls : List ToolCallRecord

abbrev pub max_iterations_default : ℕ
max_iterations_default = 12

unfoldable pub empty_response_retry_message : Str
empty_response_retry_message =
    str "Your last response was empty. If you need data to answer, call a "
    ++ str "tool now. If you can answer directly, write out the answer."

-- `not content.strip()`
abbrev pub is_blank : Str → Bool
is_blank content = is_empty (strip content)

-- The variables of the loop.
pub record Progress : Type 0 where
  pub messages : List Message
  pub tool_calls_made : List ToolCallRecord
  pub already_retried_empty : Bool

module _ {W : Type 0} (chat_fn : List Message → Exec W ChatResponse)
    (tool_executor : Str → Json → Exec W Str) where
  -- `for call in tool_calls:`
  unfoldable pub run_tools : List Call → Progress → Exec W Progress
  run_tools [] p w = (ok p, w)
  run_tools (c ∷ cs) p w = continue (tool_executor c.name c.arguments w) λ result.
      run_tools cs (record p {
        messages = p.messages ++ (tool c.id result ∷ []);
        tool_calls_made =
            p.tool_calls_made
            ++ (record { name = c.name; arguments = c.arguments; result = result } ∷ []);
      })

  -- What a round of the loop leads to: the next round, or the answer.
  pub data Outcome : Type 0 where
    again : Progress → Outcome
    answer : AgentResult → Outcome

  -- The rest of a round, from the response; `or []` and `or ""` are its first step.
  unfoldable pub respond : ChatResponse → List Call → Str → Progress → Exec W Outcome
  unfolding run_tools
  respond response [] content p w =
      if is_blank content && not p.already_retried_empty
      then (
        ok (
            again (record p {
              messages = p.messages ++ (user empty_response_retry_message ∷ []);
              already_retried_empty = true;
            })),
        w,
      )
      else (ok (answer (record { answer = content; tool_calls = p.tool_calls_made })), w)
  respond response (c ∷ cs) content p w =
      continue
        (run_tools (c ∷ cs)
          (record p { messages = p.messages ++ (assistant response.content (c ∷ cs) ∷ []) }) w)
        (λ q v. (ok (again q), v))

  -- One round of `for _ in range(max_iterations)`.
  unfoldable pub round : Progress → Exec W Outcome
  round p = do
    response ← chat_fn p.messages
    respond response (or_default response.tool_calls []) (or_default response.content []) p

  abbrev pub go_on : (Progress → Exec W AgentResult) → Result Outcome × W → Result AgentResult × W
  go_on rest (err e, v) = (err e, v)
  go_on rest (ok (answer r), v) = (ok r, v)
  go_on rest (ok (again q), v) = rest q v

  -- The rounds that are left, and the error after them.
  unfoldable pub rounds : Exc → ℕ → Progress → Exec W AgentResult
  rounds exhausted zero p w = (err exhausted, w)
  rounds exhausted (suc n) p w = go_on (rounds exhausted n) (round p w)

  abbrev pub start : Str → Str → Progress
  start system_prompt question = record {
    messages = system system_prompt ∷ user question ∷ [];
    tool_calls_made = [];
    already_retried_empty = false;
  }

  abbrev pub exceeded : ℕ → Exc
  exceeded n =
      agent_loop_error (str "exceeded " ++ of_ℕ n ++ str " iterations without a final answer")

  unfoldable pub run_agent_loop : Str → Str → ℕ → Exec W AgentResult
  unfolding rounds round respond
  run_agent_loop question system_prompt max_iterations =
      rounds (exceeded max_iterations) max_iterations (start system_prompt question)
