-- ===== src/System/History.antt =====
-- What a chat does to the server: a history of tool calls, with its audit log.
use open_warehouse_agent.Base.Int.{ℤ}
use open_warehouse_agent.Connector.Protocol.{WarehouseConnector}
use open_warehouse_agent.McpServer.Server.{Server, ToolCall, call, serve}
use open_warehouse_agent.Agent.Cli.Startup.{Sdk}
use open_warehouse_agent.Agent.Cli.Keeps.{KeptBy}
use open_warehouse_agent.System.{Link, served}
use open_warehouse_agent.Py.Env.{Env}
use open_warehouse_agent.Py.Str.{Str}
use open_warehouse_agent.Py.Json.{Json}
use open_warehouse_agent.Py.Result.{Result}
use open_warehouse_agent.Base.{◌≡◌, sym, Option, none, some, List, subst}

module _ (C : WarehouseConnector) (max_row_limit : ℤ) where
  module _ {W : Type 0} (K : Sdk W) (L : Link C max_row_limit K) where
    -- A predicate of the server that every tool call keeps is kept by all that the host calls.
    pub kept_by_calls :
        (Q : Server C.Conn → Type 0)
        → ((s : Server C.Conn) (c : ToolCall C max_row_limit) → Q s → Q (call C max_row_limit s c))
        → KeptBy K (λ w. Q (L.server w))
    kept_by_calls Q h = record {
      stdio_client = λ w q. subst Q (sym (L.starts w)) q;
      client_session = λ w q. subst Q (sym (L.opens w)) q;
      initialize = λ w q. subst Q (sym (L.greets w)) q;
      aclose = λ w q. subst Q (sym (L.closes w)) q;
      session_tools = λ w q. subst Q (sym (L.lists w)) q;
      session_call = λ name args w q.
          subst Q (sym (L.calls name args w)) (one (L.server w) (L.reads name args w) q);
      create = λ settings model messages tools w q.
          subst Q (sym (L.chats settings model messages tools w)) q;
    }
      where
        one :
            (s : Server C.Conn) (c : Option (ToolCall C max_row_limit))
            → Q s
            → Q (served C max_row_limit s c)
        one s none q = q
        one s (some c) q = h s c q

    -- The server is one that a history of tool calls leads to.
    abbrev IsServed : Server C.Conn → Server C.Conn → Type 0
    IsServed s t = (cs : List (ToolCall C max_row_limit)) × (t ≡ serve C max_row_limit s cs)
