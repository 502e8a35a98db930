-- ===== src/Domain.antt =====
-- The domain types of src/domain, each file of it in a child module.
pub mod Types
pub mod TargetId
pub mod Generation
pub mod ByteCount
pub mod Path
pub mod Job
pub mod Lifecycle
pub mod Containment
pub mod Target
pub mod Plan
pub mod Intent
pub mod Grant
pub mod Decision
pub mod Error
