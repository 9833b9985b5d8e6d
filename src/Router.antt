-- ===== src/Router.antt =====
-- rust/services/cgn-router: the gateway's admission control.
pub mod Admission
pub mod CacheState
pub mod Deadline
pub mod PrefixHash
pub mod PrefixIndex
pub mod Prompt
pub mod Usage
pub mod Registry
pub mod ClientIp
pub mod Watcher
pub mod Gossip
pub mod Selector
pub mod Disagg
pub mod Authz
pub mod Cascade
pub mod Dispatch
pub mod Respond
pub mod Stream
pub mod ApiKeys
