-- ===== src/Template/Pool/Pinned.antt =====
-- No eviction of vmm/sandbox/src/template/pool.rs touches a template that is being restored or that
-- a running sandbox refers to: neither its entries in the pool nor its directory.
pub mod Holds
mod Candidates
mod Insert
mod Evict
pub mod Survive
