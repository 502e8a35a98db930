-- ===== src/Resource.antt =====
-- src/resource/mod.rs: the locks of targets, and the pool of file descriptors.
pub mod Locks
pub mod LockLaws
pub mod Pool
pub mod Levels
