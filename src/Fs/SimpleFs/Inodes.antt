-- ===== src/Fs/SimpleFs/Inodes.antt =====
-- src/fs/simple_fs.rs: `SFS::read_inode` and `SFS::write_inode`.
use blog_os.Base.{ℕ, ◌*◌, ◌/◌, ◌%◌}
use blog_os.Base.Words.{add_usize}
use blog_os.Fs.Zerocopy.{Zerocopy}
use blog_os.Fs.BlockDev.{BlockDevice, block_error, to_block_error}
use blog_os.Fs.Layout.{inodes_per_block, inode_size}
use blog_os.Fs.Layout.Inodes.{
  Inode, disk_inode_size, as_bytes, ref_from_bytes, from_inode, inode_try_from,
}
use blog_os.Fs.SimpleFs.State.{Method, ◌>>=◌, run, try, ok_or, superblock, read_block, write_block}
use blog_os.Base.Slices.{slice, copy_into}

-- `self.superblock.inode_table_start_block + (inode_index / INODES_PER_BLOCK as u64)`
abbrev pub inode_block : {D : Type 0} → ℕ → Method D ℕ
inode_block inode_index = do
  sb ← superblock
  run (add_usize sb.inode_table_start_block (inode_index / inodes_per_block))

-- `(inode_index % INODES_PER_BLOCK as u64) as usize * INODE_SIZE`
abbrev pub inode_offset : ℕ → ℕ
inode_offset inode_index = inode_index % inodes_per_block * inode_size

module _ {D : Type 0} ⦃dev : BlockDevice D⦄ ⦃z : Zerocopy⦄ where
  unfoldable pub read_inode : ℕ → Method D Inode
  read_inode inode_index = do
    block_num ← inode_block inode_index
    buffer ← read_block block_num
    bytes ← run (slice buffer (inode_offset inode_index) disk_inode_size)
    disk_inode ← ok_or (ref_from_bytes bytes) block_error
    try (to_block_error (inode_try_from disk_inode))

  unfoldable pub write_inode : Inode → ℕ → Method D (Unit {0})
  write_inode inode inode_idx = do
    block_num ← inode_block inode_idx
    buffer ← read_block block_num
    updated ← run (copy_into buffer (inode_offset inode_idx) (as_bytes (from_inode inode)))
    write_block block_num updated
