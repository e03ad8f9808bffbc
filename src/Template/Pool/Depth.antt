-- ===== src/Template/Pool/Depth.antt =====
-- How many templates vmm/sandbox/src/template/pool.rs keeps: what a collection leaves, and what an
-- insertion adds.
mod Distinct
mod Removal
pub mod Collect
