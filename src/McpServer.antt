-- ===== src/McpServer.antt =====
-- mcp_server/: the three warehouse tools, the audit log, and the choice of an adapter.
pub mod Audit
pub mod Server
pub mod Backends
pub mod Main
mod Tests
