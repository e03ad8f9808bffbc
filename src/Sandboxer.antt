-- ===== src/Sandboxer.antt =====
-- The sandboxer of vmm/sandbox/src/sandbox.rs: its sandboxes, the template pool and the store of
-- continuations, and the requests that it serves.
pub mod State
pub mod Restore
pub mod Pins
pub mod Templates
pub mod Intent
pub mod Params
pub mod Targets
pub mod Start
pub mod Manage
pub mod Recovery
pub mod Policy
