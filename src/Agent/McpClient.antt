-- ===== src/Agent/McpClient.antt =====
-- agent/mcp_client.py: tool calls over an MCP session.
pub mod Told
use open_warehouse_agent.Py.Str.{Str, str, is_empty}
use open_warehouse_agent.Py.Json.{Json, dumps}
use open_warehouse_agent.Py.Result.{Exc, assertion_error, tool_execution_error, Result, ok, err}
use open_warehouse_agent.Py.Exec.{Exec, lift, ◌>>=◌, ◌>>◌}
use open_warehouse_agent.Agent.LlmClient.{McpTool}
use open_warehouse_agent.Base.{
  if◌then◌else◌, Bool, true, false, Option, none, some, List, [], ◌∷◌, ◌++◌,
}

-- A block of a tool's answer: a `TextContent`, or another kind.
pub data ContentBlock : Type 0 where
  text_content : Str → ContentBlock
  other_content : ContentBlock

pub record ToolResult : Type 0 where
  pub is_error : Bool
  pub structured_content : Option Json
  pub content : List ContentBlock

-- `_first_text`
unfoldable pub first_text : List ContentBlock → Option Str
first_text [] = none
first_text (text_content s ∷ bs) = some s
first_text (other_content ∷ bs) = first_text bs

-- `_first_text(content) or default`: an empty text is falsy too.
abbrev pub text_or : Option Str → Str → Str
text_or none d = d
text_or (some s) d = if is_empty s then d else s

-- The end of `call_tool`, from `if result.isError`.
unfoldable pub read_result : Str → ToolResult → Result Str
unfolding first_text
read_result name r =
    if r.is_error
    then err (tool_execution_error (text_or (first_text r.content) (name ++ str " failed")))
    else ok (elim r.structured_content [
      | some j ↦ dumps j
      | none ↦ text_or (first_text r.content) (str "null")
    ])

-- `MCPToolClient`: whether there is a stack of contexts and a session, and the world that these talk
-- to.
pub record McpToolClient (W : Type 0) : Type 0 where
  pub stack : Bool
  pub session : Bool
  pub world : W

abbrev not_entered : Exc
not_entered = assertion_error (str "MCPToolClient must be used as an async context manager")

module _ {W : Type 0} where
  abbrev pub on_world : {A : Type 0} → Exec W A → Exec (McpToolClient W) A
  on_world m c = let (r, w) = m c.world in (r, record c { world = w })

  abbrev set_stack : Exec (McpToolClient W) (Unit {0})
  set_stack c = (ok tt, record c { stack = true })

  abbrev set_session : Exec (McpToolClient W) (Unit {0})
  set_session c = (ok tt, record c { session = true })

  abbrev reset : Exec (McpToolClient W) (Unit {0})
  reset c = (ok tt, record c { stack = false; session = false })

  -- `__aenter__`, over what starts the server process, what opens a session with it, and the
  -- session's `initialize`.
  unfoldable pub enter :
      Exec W (Unit {0}) → Exec W (Unit {0}) → Exec W (Unit {0}) → Exec (McpToolClient W) (Unit {0})
  enter stdio_client client_session initialize = do
    set_stack
    on_world stdio_client
    on_world client_session
    set_session
    on_world initialize

  -- `__aexit__`, over the stack's `aclose`.
  unfoldable pub leave : Exec W (Unit {0}) → Exec (McpToolClient W) (Unit {0})
  leave aclose c = if c.stack then (on_world aclose >> reset) c else (err (assertion_error []), c)

  -- `list_tools`, over the session's own.
  unfoldable pub list_tools : Exec W (List McpTool) → Exec (McpToolClient W) (List McpTool)
  list_tools tools c = if c.session then on_world tools c else (err not_entered, c)

  -- `call_tool`, over the session's own.
  unfoldable pub call_tool :
      (Str → Json → Exec W ToolResult) → Str → Json → Exec (McpToolClient W) Str
  unfolding read_result
  call_tool session_call name arguments c =
      if c.session
      then (on_world (session_call name arguments) >>= λ result. lift (read_result name result)) c
      else (err not_entered, c)
