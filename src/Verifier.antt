-- ===== src/Verifier.antt =====
-- src/verifier/mod.rs: the postcondition verifier.
pub mod Outcome
pub mod Check
pub mod Plans
