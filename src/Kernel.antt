-- ===== src/Kernel.antt =====
-- src/main.rs: what `kernel_main` does with the virtio disk: its test of the disk, its call of
-- `SFS::mount`, and its two calls of `create_file`.
use blog_os.Base.{
  ℕ, List, [], ◌∷◌, ◌++◌, length, Bool, Result, ok, err, Exec, done, panic, ◌>>=◌, ◌>>◌, expect_ok,
}
use blog_os.Base.Slices.{slice, copy_into}
use blog_os.Fs.Zerocopy.{Zerocopy}
use blog_os.Fs.BlockDev.{BlockDevice, VirtioBlk, virtio_device}
use blog_os.Fs.SimpleFs.State.{Sfs, zero_block}
use blog_os.Fs.SimpleFs.Volume.{mount, format}
use blog_os.Fs.SimpleFs.Dirs.{init_root_directory}
use blog_os.Fs.SimpleFs.Files.{create_file, FileError, FileHandler, same_bytes}
pub mod FirstBoot
pub mod SelfTest
pub mod Backtrace
pub mod Harness
pub mod Main

module _ {D : Type 0} ⦃dev : BlockDevice D⦄ ⦃z : Zerocopy⦄ where
  -- `let mut fs = match SFS::mount(blk_dev) { .. }`: the kernel creates the driver anew where the
  -- first does not mount.
  unfoldable pub open_fs : D → Exec D → Exec (Sfs D)
  open_fs blk_dev recreate = do
    mounted ← mount blk_dev
    elim mounted [
      | ok fs ↦ done fs
      | err e ↦ do
        blk_dev_for_format ← recreate
        formatted ← format blk_dev_for_format
        elim formatted [
          | err e' ↦ panic
          | ok fs ↦ do
            (initialized, fs') ← init_root_directory fs
            elim initialized [ err e' ↦ panic | ok u ↦ done fs' ]
        ]
    ]

  -- The two calls of `fs.create_file`: their results, which the kernel prints, and the file system.
  unfoldable pub create_twice :
      List ℕ → Sfs D → Exec (Result FileError FileHandler × Result FileError FileHandler × Sfs D)
  create_twice name fs = do
    (first, fs') ← create_file name fs
    (second, fs'') ← create_file name fs'
    done (first, second, fs'')

-- `b"hello world! this is a test message from blog_os kernel!"`
abbrev pub test_data : List ℕ
test_data =
    (b'h' ∷ b'e' ∷ b'l' ∷ b'l' ∷ b'o' ∷ b' ' ∷ b'w' ∷ b'o' ∷ b'r' ∷ b'l' ∷ b'd' ∷ b'!' ∷ b' ' ∷ [])
    ++ (b't' ∷ b'h' ∷ b'i' ∷ b's' ∷ b' ' ∷ b'i' ∷ b's' ∷ b' ' ∷ b'a' ∷ b' ' ∷ [])
    ++ (b't' ∷ b'e' ∷ b's' ∷ b't' ∷ b' ' ∷ b'm' ∷ b'e' ∷ b's' ∷ b's' ∷ b'a' ∷ b'g' ∷ b'e' ∷ b' '
        ∷ [])
    ++ (b'f' ∷ b'r' ∷ b'o' ∷ b'm' ∷ b' ' ∷ b'b' ∷ b'l' ∷ b'o' ∷ b'g' ∷ b'_' ∷ b'o' ∷ b's' ∷ b' '
        ∷ [])
    ++ (b'k' ∷ b'e' ∷ b'r' ∷ b'n' ∷ b'e' ∷ b'l' ∷ b'!' ∷ [])

abbrev pub hello_txt : List ℕ
hello_txt = b'h' ∷ b'e' ∷ b'l' ∷ b'l' ∷ b'o' ∷ b'.' ∷ b't' ∷ b'x' ∷ b't' ∷ []

module _ {D E : Type 0} (blk : VirtioBlk D E) where
  -- `blk_dev.read_blocks(0, &mut buffer).expect(..)` on a buffer of zeroes
  unfoldable pub read_sector : D → Exec (List ℕ × D)
  read_sector blk_dev =
      let (r, buffer, d) = blk.read_blocks blk_dev 0 zero_block in
      expect_ok r >>= λ u. done (buffer, d)

  -- `blk_dev.write_blocks(0, &write_buffer).expect(..)`
  unfoldable pub write_sector : D → List ℕ → Exec D
  write_sector blk_dev write_buffer =
      let (r, d) = blk.write_blocks blk_dev 0 write_buffer in expect_ok r >>= λ u. done d

  -- The write/read test of block 0: whether it passed, and the driver.
  unfoldable pub self_test : D → Exec (Bool × D)
  self_test blk_dev = do
    (buffer, d₁) ← read_sector blk_dev
    shown ← slice buffer 0 16
    write_buffer ← copy_into zero_block 0 test_data
    d₂ ← write_sector d₁ write_buffer
    (read_buffer, d₃) ← read_sector d₂
    left ← slice read_buffer 0 (length test_data)
    right ← slice write_buffer 0 (length test_data)
    done (same_bytes left right, d₃)

  -- All that `kernel_main` does with the disk: whether the test passed, what the two calls of
  -- `create_file` return, and the file system.
  unfoldable pub use_disk :
      ⦃z : Zerocopy⦄
      → D
      → Exec D
      → Exec (Bool × Result FileError FileHandler × Result FileError FileHandler × Sfs D)
  use_disk ⦃z⦄ blk_dev recreate = do
    (passed, blk_dev') ← self_test blk_dev
    fs ← open_fs ⦃dev = virtio_device blk⦄ ⦃z = z⦄ blk_dev' recreate
    (first, second, fs') ← create_twice ⦃dev = virtio_device blk⦄ ⦃z = z⦄ hello_txt fs
    done (passed, first, second, fs')
