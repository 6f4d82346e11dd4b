-- ===== src/Gateway.antt =====
-- gateway/: the proxy that wakes the GPU box on a request and stops it when idle.
pub mod Compute
pub mod State
pub mod Fake
pub mod Tasks
pub mod Ec2
pub mod App
pub mod Main
mod Tests
mod TasksTests
mod ProxyTests
mod MainTests
