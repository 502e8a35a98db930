-- ===== src/Executor.antt =====
-- src/executor/mod.rs: the executor, the only component that deletes.
pub mod Progress
pub mod Parent
pub mod Deletion
pub mod Run
pub mod Accounting
pub mod Protocol
pub mod Quiet
pub mod Phases
pub mod Trace
pub mod Guards
pub mod Settling
