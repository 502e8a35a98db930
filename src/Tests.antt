-- ===== src/Tests.antt =====
-- Concrete inputs, and the theorems applied to them.
pub mod Kernel
pub mod Running
pub mod Gates
pub mod Planning
pub mod Idling
pub mod Recovering
pub mod Serving
pub mod Cleaning
pub mod Cataloguing
pub mod Collecting
