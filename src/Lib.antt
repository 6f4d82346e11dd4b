-- ===== src/Lib.antt =====
-- Verification of open-warehouse-agent: questions in English, answered from a data warehouse by a
-- model that runs on a GPU box which is started when it is needed and stopped when it is idle.
--
-- The program has three processes. The chat host (agent/) sends the conversation to the model and
-- runs the tools that the model asks for. The MCP server (mcp_server/) offers the tools, and
-- passes a query to one of three adapters (connector/), which guard it and send it to a
-- warehouse. The gateway (gateway/) stands between the chat host and the GPU box.
--
-- Which file models what:
-- * Gateway/Compute is the protocol of gateway/compute.py. Gateway/State is the GatewayController
--   of gateway/state.py (ensure_ready, reap_if_idle, run_idle_reaper), Gateway/Fake and
--   Gateway/Ec2 are the backends of gateway/fake_backend.py and gateway/ec2_backend.py, and
--   Gateway/App is gateway/app.py: the token check and the endpoints, with the app from its start
--   to its end, its reaper included, in its Lifespan. Gateway/Tasks is the controller again, with
--   every await of ensure_ready, reap_if_idle and chat_completions a place where other tasks run.
--   Gateway/Main is gateway/__main__.py.
-- * Connector/Protocol is connector/protocol.py, Connector/SqlGuard is connector/sql_guard.py,
--   and Connector/Duckdb, Snowflake and Databricks are the adapters, with what they do to fetched
--   rows in Connector/Rows and how they connect in their Settings and in Connector/Construct.
--   Connector/Contract is what the MCP server may rely on, whichever adapter it has, and
--   Connector/ReadOnly what the adapters leave as it is.
-- * McpServer/Audit is the log of mcp_server/audit.py, McpServer/Server is the tools of
--   mcp_server/server.py, McpServer/Backends the choice of mcp_server/backends.py, and
--   McpServer/Main is mcp_server/__main__.py.
-- * Agent/Loop is run_agent_loop of agent/loop.py, Agent/LlmClient and Agent/McpClient are the
--   clients of agent/llm_client.py and agent/mcp_client.py, and Agent/Cli is the session of
--   agent/cli.py, with what comes before and after it in its Startup.
-- * System is the whole command, from the chat host over the MCP session to the adapter: what a
--   chat does to the server and its log (System/History) and to the data of the warehouse
--   (System/Data), what the host lists with an answer (System/Shown), what the model is told at
--   the start (System/Catalog), of a query that is answered (System/Answer) and of one that is
--   refused (System/Refusal).
-- * Data/Generator is the data set of data/generator.py, with what makes it coherent in its
--   Books. Data/SeedDuckdb, SeedSnowflake and SeedDatabricks are data/seed_duckdb.py,
--   seed_snowflake.py and seed_databricks.py over the rows of Data/Rows and the connection of
--   Data/Warehouse. Data/Database says what their statements mean: tables that check keys,
--   references and column types, and that its Reads reads back as a data set. Data/Seeded has
--   what the scripts leave behind.
-- * Infra/SnowflakeBootstrap and Infra/DatabricksBootstrap are infra/snowflake_bootstrap.py and
--   infra/databricks_bootstrap.py, over a warehouse that may refuse a statement
--   (Infra/Statements), and Infra/Account says what the Snowflake statements mean: an account
--   with a role, its grants and a user.
-- * Base holds tests and lemmas on numbers, lists and options; Py holds what the program uses of
--   Python: texts, exceptions, int(), json.dumps, readers of what it writes and of JSON, the
--   environment, and code that changes a state and may raise (Py/Exec). Connector/Sample and
--   System/Sample have a tiny SQL library, a warehouse and a model for concrete runs.
--
-- Code that changes a state takes the state and returns the result with the state after it, also
-- when it raises: what was written before stays written. An async method under a lock is one
-- step; Gateway/Tasks has its parts as steps, and a task that finds the lock taken waits. A
-- history is a list of steps, and a change from outside is a step too. In Gateway/Tasks any task
-- may get the lock that comes free, where asyncio gives it to the one that has waited longest.
--
-- Times are natural numbers of ticks, and a method takes the readings of the clock as arguments;
-- durations and amounts of money are whole ticks and cents; floats are not modelled. Texts are
-- lists of code points. str(n) runs on fuel n + 1, and a number has no more digits than that; the
-- reader of the audit log (McpServer/Audit/Log) runs on the length of the text, and takes at
-- least one character with each step. int() reads the digits of ASCII, and lower() knows latin-1.
-- The reader of JSON (Py/Json/Loads) runs on three times the length of the text, which is enough
-- for all that json.dumps writes (its Fuel). The agent's loop recurs on the iterations left, so
-- it needs no fuel.
--
-- Parameters, with what is relied on as named hypotheses: sqlglot (Connector/SqlGuard), the
-- database drivers (Connector/Protocol), for System/Data over a warehouse whose data no SELECT
-- changes (Connector/ReadOnly), the EC2 client and the HTTP client (Gateway/Ec2, Gateway/App),
-- the client of the chat API, and json.loads as far as it reads what Py/Json/Loads reads
-- (Agent/LlmClient), the MCP SDK (Agent/McpClient, Agent/Cli/Startup, and the record Link of
-- System: what a tool returns comes as structured content or as a text), the random draws, the
-- rounded fees and the texts of dates and amounts (Data), the warehouse that the seed scripts
-- fill, which runs their texts as Data/Seeded says, float(), boto3.client (Gateway/Main), repr
-- and the imports of the adapters (McpServer/Backends).
--
-- Not modelled: the servers that the entry points start (FastAPI, uvicorn, FastMCP), the command
-- line of the DuckDB seed script, the Terraform and Packer files under infra/, and the tests. The
-- reading of files and the library that decodes private keys are parameters. Floats in JSON have
-- no model: the reader refuses a text with one.
pub mod Base
pub mod Py
pub mod Gateway
pub mod Connector
pub mod McpServer
pub mod Agent
pub mod Data
pub mod Infra
pub mod System
