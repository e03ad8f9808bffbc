-- ===== src/Template.antt =====
-- vmm/sandbox/src/template: templates, the pool of them, and the store of continuation snapshots.
pub mod Types
pub mod Disk
pub mod Pool
