-- ===== src/Tests.antt =====
-- The theorems of the development at concrete inputs, and the definitions run on a few.
pub mod Chunks
pub mod Values
pub mod Files
pub mod Dirs
pub mod Db
pub mod Fstab
pub mod Services
pub mod Settings
