-- ===== src/Tests.antt =====
-- Runs of the definitions at concrete inputs, and the theorems applied to them.
pub mod Streams
pub mod Prompts
pub mod Lines
pub mod Engine
pub mod Gateway
pub mod Cache
pub mod Planner
pub mod Accounts
pub mod Cluster
pub mod Routing
pub mod Exchange
pub mod Keys
pub mod Engines
pub mod Launch
