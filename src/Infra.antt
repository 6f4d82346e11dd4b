-- ===== src/Infra.antt =====
-- infra/: the scripts that provision a warehouse once.
pub mod Account
pub mod Statements
pub mod SnowflakeBootstrap
pub mod DatabricksBootstrap
mod Tests
