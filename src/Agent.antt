-- ===== src/Agent.antt =====
-- The node agent, rust/services/cgn-agent.
pub mod EngineStream
pub mod KvCacheState
pub mod KvConfirmed
pub mod Supervisor
pub mod EngineConfig
pub mod EngineSpawn
