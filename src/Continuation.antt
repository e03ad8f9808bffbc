-- ===== src/Continuation.antt =====
-- The continuation snapshots: one directory for each generation of a pod.
pub mod Store
pub mod Scan
pub mod Guard
pub mod Lease
