-- ===== src/System.antt =====
-- What the components share: the kernel as a parameter, the world that they change, and the
-- handles of src/fs.
pub mod Os
pub mod World
pub mod Handle
pub mod Entries
pub mod ReadOnly
pub mod Quiet
