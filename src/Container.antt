-- ===== src/Container.antt =====
-- The containers of a sandbox (vmm/sandbox/src/container): chains of handlers, which append a
-- container or change its processes, and roll back where one of them fails.
pub mod Chain
pub mod Pipes
pub mod Entry
pub mod Files
pub mod Process
pub mod Update
pub mod Unwinding
pub mod Roots
pub mod Forgetting
