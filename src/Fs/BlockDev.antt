-- ===== src/Fs/BlockDev.antt =====
-- src/fs/block_dev.rs: the trait `BlockDevice` and its implementation by the virtio driver. Also
-- `FileSystemError` of src/fs/simple_fs.rs, which the trait's methods return.
use blog_os.Base.{ℕ, List, Result, ok, err}

pub data FileSystemError : Type 0 where
  format_failed mount_failed block_error no_space name_too_long corrupt_layout : FileSystemError
  invalid_super_block : FileSystemError

pub data BlockError : Type 0 where
  invalid_block_id read write invalid_data_stream : BlockError

-- A method that takes the device or a buffer by `&mut` returns what it leaves there.
pub record BlockDevice (D : Type 0) : Type 0 where
  pub read_blocks : D → ℕ → List ℕ → Result FileSystemError (Unit {0}) × List ℕ × D
  pub write_blocks : D → ℕ → List ℕ → Result FileSystemError (Unit {0}) × D
  pub capacity : D → ℕ

-- The methods of the `virtio-drivers` crate's `VirtIOBlk` that the implementation calls.
pub record VirtioBlk (D E : Type 0) : Type 0 where
  pub read_blocks : D → ℕ → List ℕ → Result E (Unit {0}) × List ℕ × D
  pub write_blocks : D → ℕ → List ℕ → Result E (Unit {0}) × D
  pub capacity : D → ℕ

-- `map_err(|e| FileSystemError::BlockError)`
abbrev pub to_block_error {ℓ} : {A : Type ℓ} {E : Type 0} → Result E A → Result FileSystemError A
to_block_error (ok a) = ok a
to_block_error (err e) = err block_error

-- `impl BlockDevice for VirtIOBlk<OsHal, PciTransport>`; `as usize` keeps a `u64`.
unfoldable pub virtio_device : {D E : Type 0} → VirtioBlk D E → BlockDevice D
virtio_device blk = record {
  read_blocks = λ d start_block_id buffer.
      let (r, buffer', d') = blk.read_blocks d start_block_id buffer in
      (to_block_error r, buffer', d');
  write_blocks = λ d start_block_id buffer.
      let (r, d') = blk.write_blocks d start_block_id buffer in (to_block_error r, d');
  capacity = blk.capacity;
}
