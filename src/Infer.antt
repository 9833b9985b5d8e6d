-- ===== src/Infer.antt =====
-- rust/services/cgn-infer: the native inference engine's block pool and scheduler.
pub mod Llama
pub mod Pipeline
pub mod Batched
pub mod Coordinator
pub mod Pool
pub mod Text
pub mod Prefix
pub mod Scheduler
pub mod Cli
