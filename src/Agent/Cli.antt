-- ===== src/Agent/Cli.antt =====
-- agent/cli.py: the chat host, over its input lines.
pub mod Session
pub mod Truncate
pub mod Startup
pub mod Process
pub mod Host
pub mod Keeps
use open_warehouse_agent.Py.Str.{Str, str, strip, is_empty, startswith}
use open_warehouse_agent.Py.Json.{Json}
use open_warehouse_agent.Py.Result.{
  Exc, api_connection_error, agent_loop_error, tool_execution_error, Result, ok, err,
}
use open_warehouse_agent.Py.Exec.{Exec}
use open_warehouse_agent.Agent.Loop.{ToolCallRecord, AgentResult}
use open_warehouse_agent.Base.{
  ℕ, zero, suc, ◌+◌, ◌-◌, leb, if◌then◌else◌, true, false, Option, none, some, List, [], ◌∷◌, ◌++◌,
  map, length, take,
}

-- The system prompt of a session, with the answer of its first call of `list_tables`.
unfoldable pub session_prompt : Str → Str → Str
session_prompt default_prompt table_list =
    default_prompt
    ++ str "\n\nThe warehouse's tables (from list_tables, already fetched for you): "
    ++ table_list

-- `text[: limit - 1]`; a limit of 0 takes all but the last character.
abbrev pub head : ℕ → Str → Str
head zero s = take (length s - 1) s
head (suc n) s = take n s

-- `_truncate`; 0x2026 is the ellipsis.
unfoldable pub truncate : Str → ℕ → Str
truncate s limit = if leb (length s) limit then s else head limit s ++ (0x2026 ∷ [])

abbrev pub caught : Result Str → Result Str
caught (err (tool_execution_error m)) = ok (str "Error: " ++ m)
caught (ok s) = ok s
caught (err e) = err e

-- `tool_executor`: a tool's failure is text for the model; any other exception passes.
unfoldable pub tool_executor : {W : Type 0} → (Str → Json → Exec W Str) → Str → Json → Exec W Str
tool_executor call_tool name arguments w = let (r, v) = call_tool name arguments w in (caught r, v)

-- `show` is the text of a call's arguments.
module _ (show : Json → Str) where
  -- The line printed for a tool call.
  unfoldable pub call_line : ToolCallRecord → Str
  unfolding truncate
  call_line c =
      let failed = startswith c.result (str "Error:") in
      str "  [tool:"
      ++ (if failed then str "error" else str "ok")
      ++ str "] "
      ++ c.name
      ++ str "("
      ++ show c.arguments
      ++ str ") -> "
      ++ (if failed then c.result else truncate c.result 200)

  unfoldable pub answer_lines : AgentResult → List Str
  unfolding call_line
  answer_lines r = map call_line r.tool_calls ++ (r.answer ∷ [])

  -- What a question leads to: lines to print and the next question, or the end of the session.
  pub data Reply : Type 0 where
    lines : List Str → Reply
    crash : Exc → Reply

  -- The `try` round `run_agent_loop`.
  unfoldable pub reply : Str → Result AgentResult → Reply
  unfolding answer_lines
  reply unreachable (ok r) = lines (answer_lines r)
  reply unreachable (err (api_connection_error m)) = lines (unreachable ∷ [])
  reply unreachable (err (agent_loop_error m)) = lines ((str "error: " ++ m) ∷ [])
  reply unreachable (err (tool_execution_error m)) = lines ((str "error: " ++ m) ∷ [])
  reply unreachable (err e) = crash e

  -- How a session went: what was printed, whether an exception ended it, and the world after it.
  pub record Transcript (W : Type 0) : Type 0 where
    pub printed : List Str
    pub crashed : Option Exc
    pub world : W

  -- `ask` is `run_agent_loop` with the session's model, tools and system prompt; `unreachable` is
  -- the line about a model that cannot be reached. The list is the lines typed before the end of
  -- the input.
  module _ {W : Type 0} (ask : Str → Exec W AgentResult) (unreachable : Str) where
    abbrev pub proceed : Reply × W → (W → Transcript W) → Transcript W
    proceed (crash e, w) rest = record { printed = []; crashed = some e; world = w }
    proceed (lines ls, w) rest = let t = rest w in record t { printed = ls ++ t.printed }

    -- `while True:`, in the world that the questions before have left.
    unfoldable pub session : List Str → W → Transcript W
    unfolding reply
    session [] w = record { printed = [] ∷ []; crashed = none; world = w }
    session (input ∷ inputs) w =
        let question = strip input in
        let (r, v) = ask question w in
        let rest = session inputs in
        elim (is_empty question) [ true ↦ rest w | false ↦ proceed (reply unreachable r, v) rest ]
