-- ===== src/Idle.antt =====
-- src/system/idle: the idle policy and the idle manager.
pub mod State
pub mod Policy
pub mod Manager
pub mod Blockers
pub mod Gating
pub mod Score
pub mod Transitions
pub mod Tracking
