-- ===== src/Kv.antt =====
-- The KV block cache: the tiers of rust/libraries/cgn-kv and the store of
-- rust/services/cgn-kvcached.
pub mod Ram
pub mod Store
pub mod Transport
