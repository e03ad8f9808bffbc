-- ===== src/Service.antt =====
-- The management requests of vmm/sandbox/src/service/mod.rs on the pool, the continuations and the
-- list of sandboxes. A request is its fields, as they are read from its JSON text.
pub mod Fields
pub mod Requests
pub mod Keeping
