-- ===== src/Data.antt =====
-- data/: the synthetic data set, and the scripts that seed the demo warehouses with it.
pub mod Generator
pub mod Rows
pub mod Database
pub mod Warehouse
pub mod SeedDuckdb
pub mod SeedSnowflake
pub mod SeedDatabricks
pub mod Seeded
mod Tests
mod SeedTests
