-- ===== src/Sandbox.antt =====
-- A sandbox of vmm/sandbox/src/sandbox.rs: its state, what it asks of its surroundings, and its
-- operations.
pub mod State
pub mod Devices
pub mod Host
pub mod GuestFile
pub mod Blocks
pub mod Storages
pub mod Attach
pub mod Agent
pub mod Lifecycle
pub mod Restore
pub mod Recover
pub mod Halting
pub mod Collecting
pub mod Tags
