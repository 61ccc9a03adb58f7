-- ===== src/Fs/SimpleFs.antt =====
-- src/fs/simple_fs.rs: `SFS`, the simple file system.
pub mod State
pub mod Volume
pub mod Allocation
pub mod Table
pub mod Mounting
pub mod Reliable
pub mod Inodes
pub mod Dirs
pub mod Entries
pub mod Scan
pub mod Root
pub mod Fresh
pub mod Blank
pub mod Initialize
pub mod Create
pub mod AddEntry
pub mod Existing
pub mod Files
