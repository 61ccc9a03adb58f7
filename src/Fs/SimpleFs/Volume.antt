-- ===== src/Fs/SimpleFs/Volume.antt =====
-- src/fs/simple_fs.rs: `SFS::format`, `SFS::mount`, and the two allocation methods.
use blog_os.Base.{
  ℕ, ◌+◌, ◌*◌, ◌/◌, List, Option, none, some, Result, ok, err, Exec, done, panic, ◌==◌,
  if◌then◌else◌, not, bit_or,
}
use blog_os.Base as Exec
use blog_os.Base.Words.{add_usize, sub_usize}
use blog_os.Fs.Zerocopy.{Zerocopy}
use blog_os.Fs.BlockDev.{BlockDevice, FileSystemError, no_space, invalid_super_block}
use blog_os.Fs.Layout.{
  inodes_per_block, superblock_block, inode_bitmap_block, data_bitmap_block,
  inode_table_start_block,
}
use blog_os.Fs.Layout.Superblock.{
  SuperBlock, as_bytes, ref_from_bytes, from_super_block, super_block_try_from,
  disk_super_block_size,
}
use blog_os.Fs.Layout.Bitmaps.{find_and_set_first_free}
use blog_os.Fs.SimpleFs.State.{
  Sfs, Method, ◌>>=◌, ◌>>◌, pure, run, ok_or, superblock, zero_block, read_block, write_block,
}
use blog_os.Base.Slices.{slice, copy_into}

abbrev pub magic_number : ℕ
magic_number = 0xdead_beef

-- The layout that `format` gives a disk of so many blocks. The products and sums of `u64` are
-- below the capacity or 3 above it.
unfoldable pub plan : ℕ → Exec SuperBlock
plan capacity =
    let inode_table_blocks = capacity / 10 in
    let data_block_start = inode_table_start_block + inode_table_blocks in
    Exec.◌>>=◌ (sub_usize capacity data_block_start) λ data_block_count. done (record {
      total_blocks = capacity;
      inode_bitmap_block = inode_bitmap_block;
      data_bitmap_block = data_bitmap_block;
      inode_table_start_block = inode_table_start_block;
      inode_count = inode_table_blocks * inodes_per_block;
      data_block_start = data_block_start;
      data_block_count = data_block_count;
      magic_number = magic_number;
    })

module _ {D : Type 0} ⦃dev : BlockDevice D⦄ where
  -- `SFS::allocate_inode`
  unfoldable pub allocate_inode : Method D ℕ
  allocate_inode = do
    bitmap_buffer ← read_block inode_bitmap_block
    (free_inode_index, bitmap) ← run (find_and_set_first_free bitmap_buffer)
    index ← ok_or free_inode_index no_space
    sb ← superblock
    write_block sb.inode_bitmap_block bitmap
    pure index

  -- `SFS::allocate_data_block`
  unfoldable pub allocate_data_block : Method D ℕ
  allocate_data_block = do
    bm_buffer ← read_block data_bitmap_block
    (free_idx, bitmap) ← run (find_and_set_first_free bm_buffer)
    index ← ok_or free_idx no_space
    write_block data_bitmap_block bitmap
    sb ← superblock
    run (add_usize sb.data_block_start index)

module _ {D : Type 0} ⦃dev : BlockDevice D⦄ ⦃z : Zerocopy⦄ where
  -- The writes of `SFS::format`, on a file system that is not yet returned.
  unfoldable pub format_blocks : Method D (Unit {0})
  format_blocks = do
    sb ← superblock
    superblock_buffer ← run (copy_into zero_block 0 (as_bytes (from_super_block sb)))
    write_block superblock_block superblock_buffer
    write_block inode_bitmap_block zero_block
    write_block data_bitmap_block zero_block

  -- `SFS::format`
  unfoldable pub format : D → Exec (Result FileSystemError (Sfs D))
  unfolding plan format_blocks
  format device = Exec.◌>>=◌ (plan (dev.capacity device)) λ sb.
      Exec.◌>>=◌ (format_blocks (record { device = device; superblock = sb }))
        λ r. done (elim r.0 [ ok u ↦ ok r.1 | err e ↦ err e ])

  -- The part of `SFS::mount` behind the read.
  unfoldable pub mount_buffer : D → List ℕ → Exec (Result FileSystemError (Sfs D))
  mount_buffer device buffer = Exec.◌>>=◌ (slice buffer 0 disk_super_block_size) λ bytes.
      done (elim (ref_from_bytes bytes) [
        | none ↦ err invalid_super_block
        | some disk_superblock ↦ elim (super_block_try_from disk_superblock) [
          | err e ↦ err invalid_super_block
          | ok sb ↦
              if sb.magic_number == magic_number
              then ok (record { device = device; superblock = sb })
              else err invalid_super_block
        ]
      ])

  -- `SFS::mount`: the `Result` of the read is dropped.
  unfoldable pub mount : D → Exec (Result FileSystemError (Sfs D))
  mount device =
      let (ignored, buffer, device') = dev.read_blocks device superblock_block zero_block in
      mount_buffer device' buffer
