-- ===== src/Tests/Volumes.antt =====
-- The theorems of src/fs/simple_fs.rs on a disk in memory.
use blog_os.Base.{
  ℕ, if◌then◌else◌, ◌==◌, ◌+◌, ◌/◌, ◌<◌, ◌≤◌, ◌≡◌, ◌≢◌, refl, arith, [], take, drop, some,
  length-replicate, Result, ok, err, done, panic,
}
use blog_os.Tests.Fixtures.{RamDisk, ram_device, blank_disk, little_endian}
use blog_os.Tests.Layouts.{sample_super_block, sample_inode, sample_inode-IsInRange}
use blog_os.Base.Bytes.{byte_bits}
use blog_os.Fs.BlockDev.{FileSystemError, invalid_super_block, block_error}
use blog_os.Fs.Layout.Superblock.{
  SuperBlock, as_bytes, from_super_block, ref_from_bytes, ref_from_bytes-as_bytes, length-as_bytes,
}
use blog_os.Fs.Layout.Superblock as Superblock
use blog_os.Fs.Layout.Inodes.{Inode}
use blog_os.Fs.Layout.Bitmaps.{bits, first_false}
use blog_os.Fs.SimpleFs.State.{Sfs, zero_block}
use blog_os.Fs.SimpleFs.Reliable.{IsReliable, IsReady, Same, zero_block-IsBlock}
use blog_os.Fs.SimpleFs.Volume.{plan, format, mount, allocate_inode}
use blog_os.Fs.SimpleFs.Inodes.{read_inode, write_inode}
use blog_os.Fs.SimpleFs.Allocation.{Marked, block_bits, allocate_inode-some}
use blog_os.Fs.SimpleFs.Table.{read_inode-write_inode}
use blog_os.Fs.SimpleFs.Mounting.{IsPartition, planned, plan_lem, mount-format, mount_failed_read}

-- A disk in memory keeps what was written.
abbrev pub ram_reliable : IsReliable ram_device
ram_reliable = record {
  blocks = λ d. d.block_at;
  read_lem = λ d id buffer len lt. (d, ground arith, (λ k. refl), refl);
  write_lem = λ d id buffer len lt. (
    record d { block_at = λ k. if k == id then buffer else d.block_at k },
    ground arith,
    ground arith,
    (λ k ne. ground arith),
    refl,
  );
}

abbrev pub volume : Sfs RamDisk
volume = record { device = blank_disk; superblock = sample_super_block }

pub volume-IsReady : IsReady ram_reliable volume
volume-IsReady = record { blocks = λ id. zero_block-IsBlock; room = omega arith }

volume_first : first_false (block_bits ram_reliable volume 1) ≡ some 0
unfolding bits byte_bits
volume_first = refl

plan_lem_example :
    (3 ≤ 40 → (sb : SuperBlock) × (plan 40 ≡ done sb) × IsPartition 40 sb × Superblock.IsInRange sb)
    × (40 < 3 → plan 40 ≡ panic)
plan_lem_example = plan_lem 40 (omega arith)

mount-format_example :
    (s : Sfs RamDisk) × (s' : Sfs RamDisk) × (format blank_disk ≡ done (ok s))
    × (mount s.device ≡ done (ok s'))
    × Same ram_reliable s s'
mount-format_example =
    mount-format ram_reliable blank_disk (λ id. zero_block-IsBlock) (omega arith) (omega arith)

allocate_inode-some_example :
    (s' : Sfs RamDisk) × (allocate_inode volume ≡ done (ok 0, s'))
    × Marked ram_reliable volume 1 0 s'
allocate_inode-some_example =
    allocate_inode-some ram_reliable volume 0 volume-IsReady (omega arith) refl volume_first

read_inode-write_inode_example :
    (s₁ : Sfs RamDisk) × (write_inode sample_inode 5 volume ≡ done (ok tt, s₁))
    × IsReady ram_reliable s₁
    × ((s₂ : Sfs RamDisk) × (read_inode 5 s₁ ≡ done (ok sample_inode, s₂)))
    × ((j : ℕ)
        → j ≢ 5
        → 3 + j / 4 < 40
        → (a : Result FileSystemError Inode) × (t : Sfs RamDisk) × (t₁ : Sfs RamDisk) × (read_inode
              j volume
            ≡ done (a, t))
          × (read_inode j s₁ ≡ done (a, t₁)))
read_inode-write_inode_example =
    read_inode-write_inode ram_reliable volume volume-IsReady sample_inode sample_inode-IsInRange 5
      (omega arith)

-- A disk with no block, whose every read fails.
abbrev no_disk : RamDisk
no_disk = record { size = 0; block_at = λ k. [] }

mount_failed_read_example :
    (take 64 (drop 0 zero_block) ≡ as_bytes (from_super_block sample_super_block)
      → mount no_disk ≡ done (ok (planned no_disk sample_super_block)))
    × (zero_block ≡ zero_block → mount no_disk ≡ done (err invalid_super_block))
mount_failed_read_example =
    mount_failed_read no_disk no_disk zero_block block_error sample_super_block refl
      (length-replicate {A = ℕ} 512 0) (omega arith) refl
