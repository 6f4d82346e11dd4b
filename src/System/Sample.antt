-- ===== src/System/Sample.antt =====
-- A server, a session and a model that follows a script, over any connector.
use open_warehouse_agent.Base.Int.{pos}
use open_warehouse_agent.Connector.Protocol.{WarehouseConnector}
use open_warehouse_agent.McpServer.Server.{Server, ToolCall}
use open_warehouse_agent.McpServer.Server.Dicts.{tool_answer}
use open_warehouse_agent.Agent.LlmClient.{WireAnswer}
use open_warehouse_agent.Agent.McpClient.{ToolResult, text_content}
use open_warehouse_agent.Agent.Cli.Startup.{Sdk}
use open_warehouse_agent.System.{Link, served}
use open_warehouse_agent.Py.Str.{Str, str}
use open_warehouse_agent.Py.Json.{Json, dumps}
use open_warehouse_agent.Py.Result.{Result, Exc, ok, err, message}
use open_warehouse_agent.Base.{
  ℕ, zero, ◌+◌, ◌≡◌, refl, sym, inl, true, false, Option, none, some, [], ◌∷◌, subst,
}

-- The model asks for a query, and answers then. The world counts its chats.
abbrev script : ℕ → WireAnswer
script zero = record {
  content = none;
  tool_calls = some (
      record {
        id = str "c1";
        type = str "function";
        function = record { name = str "run_query"; arguments = str "{}" };
      }
      ∷ []);
}
script n = record { content = some (str "done"); tool_calls = none }

abbrev result_of : Result Json → ToolResult
result_of (ok j) = record { is_error = false; structured_content = some j; content = [] }
result_of (err e) = record {
  is_error = true;
  structured_content = none;
  content = text_content (message e) ∷ [];
}

-- `reads` is the call of a tool's name.
module _ (C : WarehouseConnector) (reads : Str → Option (ToolCall C (pos 1000))) where
  abbrev pub World : Type 0
  World = Server C.Conn × ℕ

  abbrev answer : Server C.Conn → Option (ToolCall C (pos 1000)) → ToolResult
  answer s none = record { is_error = true; structured_content = none; content = [] }
  answer s (some c) = result_of (tool_answer (λ v. Json.null) C (pos 1000) s c)

  abbrev pub sdk : Sdk World
  sdk = record {
    stdio_client = λ w. (ok tt, w);
    client_session = λ w. (ok tt, w);
    initialize = λ w. (ok tt, w);
    aclose = λ w. (ok tt, w);
    session_tools = λ w. (ok [], w);
    session_call =
        λ name args w. (ok (answer w.0 (reads name)), (served C (pos 1000) w.0 (reads name), w.1));
    create = λ settings model messages tools w. (ok (script w.1 ∷ []), (w.0, w.1 + 1));
  }

  pub returned :
      (s : Server C.Conn) (c : ToolCall C (pos 1000)) (j : Json)
      → tool_answer (λ v. Json.null) C (pos 1000) s c ≡ ok j
      → ((answer s (some c)).is_error ≡ false) × ((answer s (some c)).structured_content ≡ some j)
  returned s c j e = (rw e refl, rw e refl)

  pub raised :
      (s : Server C.Conn) (c : ToolCall C (pos 1000)) (e : Exc)
      → tool_answer (λ v. Json.null) C (pos 1000) s c ≡ err e
      → (answer s (some c)).is_error ≡ true
  raised s c e h = rw h refl

  abbrev pub link : Link C (pos 1000) sdk
  link = record {
    server = λ w. w.0;
    reads = λ name args w. reads name;
    calls = λ name args w. refl;
    starts = λ w. refl;
    opens = λ w. refl;
    greets = λ w. refl;
    closes = λ w. refl;
    lists = λ w. refl;
    chats = λ settings model messages tools w. refl;
    structured = λ j. j;
    encode = dumps;
    cell = λ v. Json.null;
    answers = λ name args w c j h e. (
      answer w.0 (reads name),
      refl,
      subst (λ o. (answer w.0 o).is_error ≡ false) (sym h) (returned w.0 c j e).0,
      inl (subst (λ o. (answer w.0 o).structured_content ≡ some j) (sym h) (returned w.0 c j e).1),
    );
    fails = λ name args w c e h k. (
      answer w.0 (reads name),
      refl,
      subst (λ o. (answer w.0 o).is_error ≡ true) (sym h) (raised w.0 c e k),
    );
  }
