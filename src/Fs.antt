-- ===== src/Fs.antt =====
-- The file system, source/fs.c and source/fs.h.
pub mod Types
pub mod Image
pub mod Time
pub mod Monad
pub mod Table
pub mod Chain
pub mod Paths
pub mod Files
pub mod Dirs
pub mod Format
mod Tests
