-- ===== src/Template/Pool.antt =====
-- vmm/sandbox/src/template/pool.rs: `TemplatePool` and `TemplateLease`. Each child holds a group of
-- the methods, or the proofs about one concern.
pub mod State
pub mod Refs
pub mod Gc
pub mod Acquire
pub mod Add
pub mod Lease
pub mod Validity
pub mod Recovery
pub mod Step
pub mod Oldest
pub mod Pinned
pub mod Depth
pub mod Counting
pub mod Crash
pub mod Rollback
pub mod Panics
pub mod Wait
pub mod Chosen
pub mod Waking
pub mod Waiting
