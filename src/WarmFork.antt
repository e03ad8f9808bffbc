-- ===== src/WarmFork.antt =====
-- The injection of a task into the workloads of a warm-forked sandbox.
pub mod Message
pub mod Framing
pub mod Talk
pub mod Inject
pub mod Commit
pub mod AllOrNothing
pub mod Answers
