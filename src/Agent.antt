-- ===== src/Agent.antt =====
-- agent/: the tool-calling loop, the clients that it is wired to, and the chat host.
pub mod Loop
pub mod LlmClient
pub mod McpClient
pub mod Cli
mod Tests
