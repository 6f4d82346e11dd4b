-- ===== src/Agent/Cli/Host.antt =====
-- Which failures the host survives, from its start to its end.
use open_warehouse_agent.Py.Env.{Env}
use open_warehouse_agent.Py.Str.{Str, str, is_empty}
use open_warehouse_agent.Py.Json.{Json}
use open_warehouse_agent.Py.Result
use open_warehouse_agent.Py.Result.{Result, ok, err}
use open_warehouse_agent.Py.Exec.{Exec, ◌>>=◌}
use open_warehouse_agent.Agent.Loop.{ChatResponse}
use open_warehouse_agent.Agent.LlmClient.{WireCall, WireAnswer, read_answer, first_choice}
use open_warehouse_agent.Agent.McpClient.{McpToolClient}
use open_warehouse_agent.Agent.Cli.Session.{IsUnreachable}
use open_warehouse_agent.Agent.Cli.Startup.{Sdk}
use open_warehouse_agent.Base.{if◌then◌else◌, ◌≡◌, true, Option, none, some, List, [], ◌∷◌, All}

module _ (show : Json → Str) (show_url : Str → Str) (loads : Str → Result Json) (env : Env)
    {W : Type 0} (K : Sdk W) where
  -- An entered client: it has its stack of contexts and its session.
  abbrev IsEntered : McpToolClient W → Type 0
  IsEntered c = (c.stack ≡ true) × (c.session ≡ true)

  -- A tool call of the model's answer, with arguments that `json.loads` reads: no text stands for
  -- the empty object.
  abbrev pub IsCallRead : WireCall → Type 0
  IsCallRead c =
      (j : Json) × (loads (if is_empty c.function.arguments then str "{}" else c.function.arguments)
        ≡ ok j)

  abbrev pub ArgumentsRead : Option (List WireCall) → Type 0
  ArgumentsRead none = Unit
  ArgumentsRead (some cs) = All IsCallRead cs

  -- The API answers with a choice whose calls have arguments that read, or it is unreachable.
  abbrev pub IsAnswer : Result (List WireAnswer) → Type 0
  IsAnswer (ok []) = ⊥
  IsAnswer (ok (m ∷ ms)) = ArgumentsRead m.tool_calls
  IsAnswer (err e) = IsUnreachable e

  -- What `chat_fn` makes of the API's answer.
  abbrev read_choices : List WireAnswer → Result ChatResponse
  read_choices choices = Result.◌>>=◌ (first_choice loads choices) (read_answer loads)
