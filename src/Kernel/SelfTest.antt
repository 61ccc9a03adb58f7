-- ===== src/Kernel/SelfTest.antt =====
-- src/main.rs: what the kernel's test of the disk means for the file system on it.
use blog_os.Base.{
  ℕ, ◌≤◌, ◌+◌, ◌/◌, ◌^◌, ◌<◌, ◌≡◌, ◌≢◌, refl, ap, ◌∙◌, List, Result, ok, err, done, true, arith,
  length, length-replicate, leb, subst,
}
use blog_os.Base.Slices.{splice}
use blog_os.Fs.Zerocopy.{Zerocopy}
use blog_os.Fs.BlockDev.{VirtioBlk, virtio_device, to_block_error, invalid_super_block}
use blog_os.Fs.Layout.Superblock.{ref_from_bytes, super_block_try_from}
use blog_os.Fs.SimpleFs.State.{Sfs, zero_block}
use blog_os.Fs.SimpleFs.Volume.{mount, mount_buffer}
use blog_os.Fs.SimpleFs.Files.{FileError, same_bytes}
use blog_os.Fs.SimpleFs.Reliable.{IsReliable, IsBlock}
use blog_os.Fs.SimpleFs.Create.{IsName}
use blog_os.Fs.SimpleFs.Root.{HasRoot}
use blog_os.Kernel.{read_sector, write_sector, self_test, use_disk, test_data, hello_txt}
use blog_os.Kernel.FirstBoot.{first_boot}

-- The block that the test leaves.
abbrev pub test_block : List ℕ
test_block = splice zero_block 0 test_data

to_block_error-ok : {E : Type 0} (r : Result E (Unit {0})) → to_block_error r ≡ ok tt → r ≡ ok tt
to_block_error-ok (ok u) h = refl
to_block_error-ok (err e) h = cc

hello_txt-IsName : IsName hello_txt
hello_txt-IsName = record { some_byte = omega arith; fits = omega arith; bytes = omega arith }

module _ {D E : Type 0} (blk : VirtioBlk D E) ⦃z : Zerocopy⦄
    (rel : IsReliable (virtio_device blk)) where
  mount_test_block :
      (d : D) → mount_buffer ⦃dev = virtio_device blk⦄ d test_block ≡ done (err invalid_super_block)
  unfolding mount_buffer ref_from_bytes super_block_try_from
  mount_test_block d = rw (z.get_zeros 4)

  read_sector_lem :
      (d : D)
      → 0 < blk.capacity d
      → (d' : D) × (read_sector blk d ≡ done (rel.blocks d 0, d'))
        × ((k : ℕ) → rel.blocks d' k ≡ rel.blocks d k)
        × (blk.capacity d' ≡ blk.capacity d)
  unfolding read_sector virtio_device
  read_sector_lem d pos =
      let (d', read, same, cap) =
        rel.read_lem d 0 zero_block (length-replicate {A = ℕ} 512 0) pos in
      let went = to_block_error-ok (blk.read_blocks d 0 zero_block).0 (ap (λ r. r.0) read) in
      let left = ap (λ r. r.1) read in
      let after = ap (λ r. r.2) read in (d', rw (read_sector, went, left, after) refl, same, cap)

  write_sector_lem :
      (d : D) (buffer : List ℕ)
      → length buffer ≡ 512
      → 0 < blk.capacity d
      → (d' : D) × (write_sector blk d buffer ≡ done d')
        × (rel.blocks d' 0 ≡ buffer)
        × ((k : ℕ) → k ≢ 0 → rel.blocks d' k ≡ rel.blocks d k)
        × (blk.capacity d' ≡ blk.capacity d)
  unfolding write_sector virtio_device
  write_sector_lem d buffer len pos =
      let (d', wrote, here, other, cap) = rel.write_lem d 0 buffer len pos in
      let went = to_block_error-ok (blk.write_blocks d 0 buffer).0 (ap (λ r. r.0) wrote) in
      let after = ap (λ r. r.1) wrote in (d', rw (write_sector, went, after) refl, here, other, cap)

  -- The test passes, and leaves its message in block 0, so that the disk does not mount.
  self_test_lem :
      (d : D)
      → IsBlock (rel.blocks d 0)
      → 0 < blk.capacity d
      → (d' : D) × (self_test blk d ≡ done (true, d'))
        × (mount ⦃dev = virtio_device blk⦄ d' ≡ done (err invalid_super_block))
        × ((k : ℕ) → k ≢ 0 → rel.blocks d' k ≡ rel.blocks d k)
        × (blk.capacity d' ≡ blk.capacity d)
  unfolding self_test mount same_bytes virtio_device
  self_test_lem d block pos =
      let (d₁, read₁, same₁, cap₁) = read_sector_lem d pos in
      let (d₂, wrote, here, other, cap₂) =
        write_sector_lem d₁ test_block refl (omega (arith, cap₁)) in
      let (d₃, read₃, same₃, cap₃) = read_sector_lem d₂ (omega (arith, cap₁, cap₂)) in
      let read : read_sector blk d₂ ≡ done (test_block, d₃) = read₃ ∙ ap (λ b. done (b, d₃)) here in
      let long : leb 16 (length (rel.blocks d 0)) ≡ true = ground (arith, block.size) in
      let (d₄, again, same₄, cap₄) =
        rel.read_lem d₃ 0 zero_block (length-replicate {A = ℕ} 512 0)
          (omega (arith, cap₁, cap₂, cap₃)) in
      (
        d₃,
        rw (self_test, read₁, long, wrote, read) refl,
        ap (λ t. mount_buffer ⦃dev = virtio_device blk⦄ t.2 t.1) again
            ∙ ap (λ b. mount_buffer ⦃dev = virtio_device blk⦄ d₄ b) (same₃ 0 ∙ here)
            ∙ mount_test_block d₄,
        λ k ne. same₃ k ∙ other k ne ∙ same₁ k,
        cap₃ ∙ cap₂ ∙ cap₁,
      )

  -- Whatever stands on the disk, each boot begins with a new file system: the kernel's test of a disk
  -- that does not fail passes and leaves its message in block 0, so the disk does not mount. On a
  -- disk of ten blocks or more the kernel then formats it without a panic, the first of its calls of
  -- `create_file` creates `hello.txt` with the inode 1, and the second is refused with `Corrupt`.
  pub use_disk_lem :
      (d d' : D)
      → IsBlock (rel.blocks d 0)
      → 0 < blk.capacity d
      → ((id : ℕ) → IsBlock (rel.blocks d' id))
      → 10 ≤ blk.capacity d'
      → blk.capacity d' < 2 ^ 64
      → (d₁ : D) × (s' : Sfs D) × (self_test blk d ≡ done (true, d₁))
        × (mount ⦃dev = virtio_device blk⦄ d₁ ≡ done (err invalid_super_block))
        × (use_disk blk d (done d')
            ≡ done (true, ok (record { index = 1 }), err FileError.corrupt, s'))
        × HasRoot ⦃dev = virtio_device blk⦄ rel s' (3 + blk.capacity d' / 10)
  unfolding use_disk virtio_device
  use_disk_lem d d' block pos blocks big room =
      let (d₁, tested, unmounted, kept, cap) = self_test_lem d block pos in
      let (s, s', opened, created, start, root) =
        first_boot ⦃dev = virtio_device blk⦄ rel hello_txt hello_txt-IsName (λ e. cc) (λ e. cc) d₁
          d' invalid_super_block unmounted blocks big room in
      (
        d₁,
        s',
        tested,
        unmounted,
        rw (use_disk, tested, opened, created) refl,
        subst (λ n. HasRoot ⦃dev = virtio_device blk⦄ rel s' n) start root,
      )
