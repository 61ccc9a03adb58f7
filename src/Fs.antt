-- ===== src/Fs.antt =====
-- src/fs: the simple file system and the block device below it.
pub mod Zerocopy
pub mod Layout
pub mod BlockDev
pub mod SimpleFs
