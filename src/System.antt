-- ===== src/System.antt =====
-- The whole command: the chat host, agent/cli.py, over the MCP client, agent/mcp_client.py, over a
-- session with the process of the MCP server, mcp_server/server.py, over an adapter of connector/.
-- What lies between the client's calls and the tools, the MCP SDK, is a parameter.
pub mod History
pub mod Data
pub mod Catalog
pub mod Told
pub mod Answer
pub mod Refusal
pub mod Shown
mod Sample
mod Tests
mod AnswerTests
use open_warehouse_agent.Base.Int.{ℤ}
use open_warehouse_agent.Connector.Protocol.{Cell, WarehouseConnector}
use open_warehouse_agent.McpServer.Server.{Server, ToolCall, call}
use open_warehouse_agent.McpServer.Server.Dicts.{tool_answer}
use open_warehouse_agent.Agent.LlmClient.{WireMessage, ToolParam}
use open_warehouse_agent.Agent.McpClient.{ContentBlock, text_content, ToolResult}
use open_warehouse_agent.Agent.Cli.Startup.{Sdk}
use open_warehouse_agent.Py.Str.{Str, is_empty}
use open_warehouse_agent.Py.Json.{Json}
use open_warehouse_agent.Py.Result.{Exc, ok, err}
use open_warehouse_agent.Base.{
  ℕ, zero, suc, ◌+◌, ◌-◌, ◌*◌, ◌/◌, ◌%◌, ◌≤◌, ◌<◌, ltb, leb, ◌==◌, if◌then◌else◌, ◌≡◌, refl, sym,
  ap, ◌∙◌, ◌≢◌, ◌↔◌, ◌⊎◌, inl, inr, Bool, true, false, not, ◌&&◌, ◌||◌, Option, none, some, List,
  [], ◌∷◌, ◌++◌, map, append_assoc, append-nil, map-append, arith, length, take, get_elem?,
  length-append, length-take, length-map, All, All-append, All-map, Bool-cases, Option-cases,
  or_default, is_some, ltb→lt, leb→le, ==_iff, subst, fun_ext,
}

-- An answer carries a value as its structured content, or, with none, as the text of its first
-- block, which is not empty.
abbrev pub Carries : (Json → Json) → (Json → Str) → ToolResult → Json → Type 0
Carries structured encode r j =
    (r.structured_content ≡ some (structured j))
    ⊎ ((r.structured_content ≡ none)
        × ((rest : List ContentBlock) × (r.content ≡ text_content (encode j) ∷ rest))
        × (is_empty (encode j) ≡ false))

module _ (C : WarehouseConnector) (max_row_limit : ℤ) where
  -- The server after a request: one that names no tool, or does not fit its parameters, is answered
  -- without a call.
  abbrev pub served : Server C.Conn → Option (ToolCall C max_row_limit) → Server C.Conn
  served s none = s
  served s (some c) = call C max_row_limit s c

  -- What the host relies on of the SDK and of the model's API. `server` is the server's process in
  -- the world, before its start the state that it will start with; `reads` is the call that the SDK
  -- makes of a tool's name and arguments, with the clock's readings.
  pub record Link {W : Type 0} (K : Sdk W) : Type 0 where
    pub server : W → Server C.Conn
    pub reads : Str → Json → W → Option (ToolCall C max_row_limit)
    -- A request calls the tool that it is read as, once, and nothing else calls one.
    pub calls :
        (name : Str) (args : Json) (w : W)
        → server (K.session_call name args w).1 ≡ served (server w) (reads name args w)
    pub starts : (w : W) → server (K.stdio_client w).1 ≡ server w
    pub opens : (w : W) → server (K.client_session w).1 ≡ server w
    pub greets : (w : W) → server (K.initialize w).1 ≡ server w
    pub closes : (w : W) → server (K.aclose w).1 ≡ server w
    pub lists : (w : W) → server (K.session_tools w).1 ≡ server w
    pub chats :
        (settings : Str × Str) (model : Str) (messages : List WireMessage)
        → (tools : Option (List ToolParam)) (w : W)
        → server (K.create settings model messages tools w).1 ≡ server w
    -- The structured content of an answer, its text, and how a value of a row is written in it.
    pub structured : Json → Json
    pub encode : Json → Str
    pub cell : Cell → Json
    -- What a tool returns is answered with, and not as an error.
    pub answers :
        (name : Str) (args : Json) (w : W) (c : ToolCall C max_row_limit) (j : Json)
        → reads name args w ≡ some c
        → tool_answer cell C max_row_limit (server w) c ≡ ok j
        → (r : ToolResult) × ((K.session_call name args w).0 ≡ ok r)
          × (r.is_error ≡ false)
          × Carries structured encode r j
    -- What a tool raises is answered with an error, and does not end the session.
    pub fails :
        (name : Str) (args : Json) (w : W) (c : ToolCall C max_row_limit) (e : Exc)
        → reads name args w ≡ some c
        → tool_answer cell C max_row_limit (server w) c ≡ err e
        → (r : ToolResult) × ((K.session_call name args w).0 ≡ ok r) × (r.is_error ≡ true)
