-- ===== src/Connector.antt =====
-- connector/: the protocol of the warehouses, the SQL guard, and one adapter for each warehouse.
pub mod Protocol
pub mod SqlGuard
pub mod Rows
pub mod Duckdb
pub mod Snowflake
pub mod Databricks
pub mod Contract
pub mod ReadOnly
pub mod Construct
pub mod Sample
mod Tests
