-- ===== src/Agent/LlmClient.antt =====
-- agent/llm_client.py: the loop's messages in the wire format of the chat-completions API, and back.
pub mod Wire
use open_warehouse_agent.Py.Env.{Env}
use open_warehouse_agent.Py.Str.{Str, str, is_empty}
use open_warehouse_agent.Py.Json.{Json, dumps}
use open_warehouse_agent.Py.Result.{index_error, Result, ok, err, ◌>>=◌}
use open_warehouse_agent.Py.Exec.{Exec, continue}
use open_warehouse_agent.Agent.Loop.{Call, ChatResponse, Message, assistant}
use open_warehouse_agent.Base.{
  ◌-◌, ◌/◌, if◌then◌else◌, Option, none, some, List, [], ◌∷◌, or_default,
}

-- `build_client`'s base URL and key, and `model_name`.
unfoldable pub client_settings : Env → Str × Str
client_settings env = (
  or_default (env (str "OWA_LLM_BASE_URL")) (str "http://localhost:11434/v1"),
  or_default (env (str "OWA_LLM_API_KEY")) (str "ollama"),
)

unfoldable pub model_name : Env → Str
model_name env = or_default (env (str "OWA_MODEL")) (str "qwen2.5:7b-instruct")

-- A tool as the MCP server lists it, and as the API takes it.
pub record McpTool : Type 0 where
  pub name : Str
  pub description : Option Str
  pub input_schema : Json

pub record Function : Type 0 where
  pub name : Str
  pub description : Str
  pub parameters : Json

pub record ToolParam : Type 0 where
  pub type : Str
  pub function : Function

unfoldable pub mcp_tools_to_openai : List McpTool → List ToolParam
mcp_tools_to_openai [] = []
mcp_tools_to_openai (t ∷ ts) =
    record {
      type = str "function";
      function = record {
        name = t.name;
        description = or_default t.description [];
        parameters = t.input_schema;
      };
    }
    ∷ mcp_tools_to_openai ts

-- A call on the wire: its arguments are a text.
pub record WireFunction : Type 0 where
  pub name : Str
  pub arguments : Str

pub record WireCall : Type 0 where
  pub id : Str
  pub type : Str
  pub function : WireFunction

-- A message on the wire: one with no tool calls goes as it is.
pub data WireMessage : Type 0 where
  as_is : Message → WireMessage
  with_calls : Option Str → List WireCall → WireMessage

unfoldable pub wire_calls : List Call → List WireCall
wire_calls [] = []
wire_calls (c ∷ cs) =
    record {
      id = c.id;
      type = str "function";
      function = record { name = c.name; arguments = dumps c.arguments };
    }
    ∷ wire_calls cs

-- One step of the loop in `_to_wire_messages`; only the assistant's messages have tool calls.
unfoldable pub to_wire : Message → WireMessage
unfolding wire_calls
to_wire (assistant content (c ∷ cs)) = with_calls content (wire_calls (c ∷ cs))
to_wire m = as_is m

-- `_to_wire_messages`
unfoldable pub to_wire_messages : List Message → List WireMessage
unfolding to_wire
to_wire_messages [] = []
to_wire_messages (m ∷ ms) = to_wire m ∷ to_wire_messages ms

-- A message of the model's answer.
pub record WireAnswer : Type 0 where
  pub content : Option Str
  pub tool_calls : Option (List WireCall)

-- `tools or None`
abbrev pub or_none : List ToolParam → Option (List ToolParam)
or_none [] = none
or_none (t ∷ ts) = some (t ∷ ts)

-- `loads` is `json.loads`; an empty text of arguments reads as "{}".
module _ (loads : Str → Result Json) where
  abbrev pub or_object : Str → Str
  or_object s = if is_empty s then str "{}" else s

  unfoldable pub read_calls : List WireCall → Result (List Call)
  read_calls [] = ok []
  read_calls (c ∷ cs) = do
    arguments ← loads (or_object c.function.arguments)
    rest ← read_calls cs
    ok (record { id = c.id; name = c.function.name; arguments = arguments } ∷ rest)

  abbrev pub read_answer : WireAnswer → Result ChatResponse
  read_answer m = do
    calls ← read_calls (or_default m.tool_calls [])
    ok (record { content = m.content; tool_calls = some calls })

  -- `completion.choices[0].message`
  abbrev pub first_choice : List WireAnswer → Result WireAnswer
  first_choice [] = err (index_error (str "list index out of range"))
  first_choice (m ∷ ms) = ok m

  -- `chat_fn`, over `client.chat.completions.create` of a model, messages and tools, at
  -- temperature 0; the answer is its list of choices.
  module _ {W : Type 0}
      (create : Str → List WireMessage → Option (List ToolParam) → Exec W (List WireAnswer)) where
    unfoldable pub chat_fn : Str → List ToolParam → List Message → Exec W ChatResponse
    chat_fn model tools messages w =
        continue (create model (to_wire_messages messages) (or_none tools) w)
          λ choices v. ((first_choice choices >>= read_answer), v)
