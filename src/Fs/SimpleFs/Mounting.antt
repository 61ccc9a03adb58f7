-- ===== src/Fs/SimpleFs/Mounting.antt =====
-- `SFS::format` and `SFS::mount` on a device that does not fail.
use blog_os.Base.{
  ℕ, ◌+◌, ◌-◌, ◌*◌, ◌/◌, ◌^◌, ◌≤◌, ◌<◌, ◌≡◌, ◌≢◌, ap, sym, ◌∙◌, true, List, some, Result, ok, err,
  done, panic, length, arith, take, drop, leb, le→leb, ◌==◌, false, length-replicate,
}
use blog_os.Base.Bytes.{IsByte}
use blog_os.Base.Slices.{splice, copy_into, length-splice, splice_self, All-splice}
use blog_os.Fs.Zerocopy.{Zerocopy}
use blog_os.Fs.BlockDev.{BlockDevice, FileSystemError, invalid_super_block}
use blog_os.Fs.Layout.Superblock.{
  SuperBlock, as_bytes, ref_from_bytes, from_super_block, super_block_try_from, IsInRange,
  length-as_bytes, as_bytes-IsByte, ref_from_bytes-as_bytes, try_from-from_super_block,
}
use blog_os.Fs.SimpleFs.State.{Sfs, zero_block}
use blog_os.Fs.SimpleFs.Volume.{plan, format_blocks, format, mount_buffer, mount, magic_number}
use blog_os.Fs.SimpleFs.Reliable.{
  IsReliable, IsBlock, zero_block-IsBlock, content, size, IsReady, Same, write_block_lem,
  Updated-IsReady,
}

-- The parts of the disk that a superblock describes: three blocks, the inode table, a tenth of the
-- disk with four inodes to a block, and the data blocks up to the end of the disk.
pub record IsPartition (capacity : ℕ) (sb : SuperBlock) : Type 0 where
  pub total : sb.total_blocks ≡ capacity
  pub bitmaps : (sb.inode_bitmap_block ≡ 1) × (sb.data_bitmap_block ≡ 2)
  pub table : sb.inode_table_start_block ≡ 3
  pub inodes : (sb.data_block_start - sb.inode_table_start_block) * 4 ≡ sb.inode_count
  pub data_start : sb.data_block_start ≡ 3 + capacity / 10
  pub data_to_end : sb.data_block_start + sb.data_block_count ≡ capacity
  pub magic : sb.magic_number ≡ magic_number

-- A disk of three blocks or more is divided without a gap; a smaller one makes `format` panic.
pub plan_lem :
    (capacity : ℕ)
    → capacity < 2 ^ 64
    → (3 ≤ capacity
        → (sb : SuperBlock) × (plan capacity ≡ done sb) × IsPartition capacity sb × IsInRange sb)
      × (capacity < 3 → plan capacity ≡ panic)
unfolding plan
plan_lem capacity room = (
  λ h. (
    record {
      total_blocks = capacity;
      inode_bitmap_block = 1;
      data_bitmap_block = 2;
      inode_table_start_block = 3;
      inode_count = capacity / 10 * 4;
      data_block_start = 3 + capacity / 10;
      data_block_count = capacity - (3 + capacity / 10);
      magic_number = magic_number;
    },
    ground arith,
    omega arith,
    omega arith,
  ),
  λ h. ground arith,
)

-- A file system from a device and a superblock.
abbrev pub planned : {D : Type 0} → D → SuperBlock → Sfs D
planned d sb = record { device = d; superblock = sb }

module _ {D : Type 0} ⦃dev : BlockDevice D⦄ ⦃z : Zerocopy⦄ where
  -- What `mount` makes of a buffer that begins with the bytes of a superblock.
  mount_buffer_lem :
      (d : D) (buffer : List ℕ) (sb : SuperBlock)
      → length buffer ≡ 512
      → take 64 (drop 0 buffer) ≡ as_bytes (from_super_block sb)
      → IsInRange sb
      → sb.magic_number ≡ magic_number
      → mount_buffer d buffer ≡ done (ok (planned d sb))
  unfolding mount_buffer
  mount_buffer_lem d buffer sb len bytes r magic =
      let fits : leb (0 + 64) (length buffer) ≡ true = ground arith in
      let is_magic : (sb.magic_number == magic_number) ≡ true = ground arith in
      rw (fits, bytes, ref_from_bytes-as_bytes sb, try_from-from_super_block sb r, is_magic)

  -- `mount` looks at the buffer that the read leaves, whatever the read returns.
  mount_read :
      (d d' : D) (buffer : List ℕ) (r : Result FileSystemError (Unit {0}))
      → dev.read_blocks d 0 zero_block ≡ (r, buffer, d')
      → mount d ≡ mount_buffer d' buffer
  unfolding mount
  mount_read d d' buffer r e = ap (λ t. mount_buffer t.2 t.1) e

  mount_zeros : (d : D) → mount_buffer d zero_block ≡ done (err invalid_super_block)
  unfolding mount_buffer ref_from_bytes super_block_try_from
  mount_zeros d = rw (z.get_zeros 4)

  -- A failed read does not make `mount` fail: it goes by what the buffer then holds. The bytes of
  -- a superblock with the right number mount, and the zeroes of an untouched buffer do not.
  pub mount_failed_read :
      (d d' : D) (buffer : List ℕ) (e : FileSystemError) (sb : SuperBlock)
      → dev.read_blocks d 0 zero_block ≡ (err e, buffer, d')
      → length buffer ≡ 512
      → IsInRange sb
      → sb.magic_number ≡ magic_number
      → (take 64 (drop 0 buffer) ≡ as_bytes (from_super_block sb)
          → mount d ≡ done (ok (planned d' sb)))
        × (buffer ≡ zero_block → mount d ≡ done (err invalid_super_block))
  mount_failed_read d d' buffer e sb read len r magic = (
    λ bytes. mount_read d d' buffer (err e) read ∙ mount_buffer_lem d' buffer sb len bytes r magic,
    λ blank.
        mount_read d d' buffer (err e) read ∙ ap (λ b. mount_buffer d' b) blank ∙ mount_zeros d',
  )

module _ {D : Type 0} ⦃dev : BlockDevice D⦄ ⦃z : Zerocopy⦄ (rel : IsReliable dev) where
  -- The block that holds the superblock.
  abbrev pub superblock_bytes : SuperBlock → List ℕ
  superblock_bytes sb = splice zero_block 0 (as_bytes (from_super_block sb))

  fits_block : (sb : SuperBlock) → 0 + length (as_bytes (from_super_block sb)) ≤ length zero_block
  fits_block sb = omega (arith, length-as_bytes sb, length-replicate {A = ℕ} 512 0)

  superblock_bytes-IsBlock : (sb : SuperBlock) → IsBlock (superblock_bytes sb)
  superblock_bytes-IsBlock sb = record {
    size =
        length-splice zero_block 0 (as_bytes (from_super_block sb)) (fits_block sb)
        ∙ zero_block-IsBlock.size;
    bytes =
        All-splice IsByte zero_block 0 (as_bytes (from_super_block sb)) zero_block-IsBlock.bytes
          (as_bytes-IsByte sb);
  }

  -- What `format` leaves on the disk.
  pub record IsFormatted (s s' : Sfs D) : Type 0 where
    pub superblock_same : s'.superblock ≡ s.superblock
    pub superblock_there : content rel s' 0 ≡ superblock_bytes s.superblock
    pub inodes_free : content rel s' 1 ≡ zero_block
    pub data_free : content rel s' 2 ≡ zero_block
    pub rest_same : (k : ℕ) → 3 ≤ k → content rel s' k ≡ content rel s k
    pub size_same : size rel s' ≡ size rel s
    pub ready : IsReady rel s'

  copy_lem :
      (sb : SuperBlock)
      → copy_into zero_block 0 (as_bytes (from_super_block sb)) ≡ done (superblock_bytes sb)
  copy_lem sb =
      let fits : leb (0 + length (as_bytes (from_super_block sb))) (length zero_block) ≡ true =
        le→leb _ _ (fits_block sb) in
      rw fits

  format_blocks_lem :
      (s : Sfs D)
      → IsReady rel s
      → 3 ≤ size rel s
      → (s' : Sfs D) × (format_blocks s ≡ done (ok tt, s')) × IsFormatted s s'
  unfolding format_blocks
  format_blocks_lem s h big =
      let sb : SuperBlock = s.superblock in
      let b0 : IsBlock (superblock_bytes sb) = superblock_bytes-IsBlock sb in
      let (s₁, w₁, u₁) = write_block_lem rel s 0 (superblock_bytes sb) b0.size (omega arith) in
      let (s₂, w₂, u₂) =
        write_block_lem rel s₁ 1 zero_block zero_block-IsBlock.size (omega (arith, u₁.size_same)) in
      let (s₃, w₃, u₃) =
        write_block_lem rel s₂ 2 zero_block zero_block-IsBlock.size
          (omega (arith, u₁.size_same, u₂.size_same)) in
      let h₁ : IsReady rel s₁ = Updated-IsReady rel s s₁ 0 _ u₁ b0 h in
      let h₂ : IsReady rel s₂ = Updated-IsReady rel s₁ s₂ 1 _ u₂ zero_block-IsBlock h₁ in
      (
        s₃,
        rw (copy_lem sb, w₁, w₂, w₃),
        record {
          superblock_same = u₃.superblock_same ∙ u₂.superblock_same ∙ u₁.superblock_same;
          superblock_there =
              u₃.content_other 0 (omega arith) ∙ u₂.content_other 0 (omega arith) ∙ u₁.content_here;
          inodes_free = u₃.content_other 1 (omega arith) ∙ u₂.content_here;
          data_free = u₃.content_here;
          rest_same = λ k hk.
              u₃.content_other k (omega arith)
              ∙ u₂.content_other k (omega arith)
              ∙ u₁.content_other k (omega arith);
          size_same = u₃.size_same ∙ u₂.size_same ∙ u₁.size_same;
          ready = Updated-IsReady rel s₂ s₃ 2 _ u₃ zero_block-IsBlock h₂;
        },
      )

  -- On a reliable device of three blocks or more, whose blocks hold 512 bytes, `format` divides the
  -- disk, writes the superblock and two empty bitmaps, and keeps the other blocks.
  pub format_lem :
      (d : D)
      → ((id : ℕ) → IsBlock (rel.blocks d id))
      → 3 ≤ dev.capacity d
      → dev.capacity d < 2 ^ 64
      → (sb : SuperBlock) × (s : Sfs D) × (format d ≡ done (ok s))
        × IsPartition (dev.capacity d) sb
        × IsInRange sb
        × IsFormatted (planned d sb) s
  unfolding format
  format_lem d blocks big room =
      let (sb, made, parts, range) = (plan_lem (dev.capacity d) room).0 big in
      let (s, wrote, formatted) =
        format_blocks_lem (planned d sb) (record { blocks = blocks; room = room }) big in
      (sb, s, rw (made, wrote), parts, range, formatted)

  superblock_front :
      (sb : SuperBlock) → take 64 (drop 0 (superblock_bytes sb)) ≡ as_bytes (from_super_block sb)
  superblock_front sb =
      ap (λ n. take n (drop 0 (superblock_bytes sb))) (sym (length-as_bytes sb))
      ∙ splice_self zero_block 0 (as_bytes (from_super_block sb)) (fits_block sb)

  -- A reliable device of three blocks or more, whose blocks hold 512 bytes, mounts after `format` with
  -- the superblock that `format` gave it, and the mount changes nothing on the disk.
  pub mount-format :
      (d : D)
      → ((id : ℕ) → IsBlock (rel.blocks d id))
      → 3 ≤ dev.capacity d
      → dev.capacity d < 2 ^ 64
      → (s : Sfs D) × (s' : Sfs D) × (format d ≡ done (ok s))
        × (mount s.device ≡ done (ok s'))
        × Same rel s s'
  mount-format d blocks big room =
      let (sb, s, made, parts, range, f) = format_lem d blocks big room in
      let (d', read, same, cap) =
        rel.read_lem s.device 0 zero_block (length-replicate {A = ℕ} 512 0)
          (omega (arith, f.size_same)) in
      let there : rel.blocks s.device 0 ≡ superblock_bytes sb = f.superblock_there in
      (
        s,
        planned d' sb,
        made,
        mount_read s.device d' _ _ read
            ∙ ap (λ b. mount_buffer d' b) there
            ∙ mount_buffer_lem d' (superblock_bytes sb) sb (superblock_bytes-IsBlock sb).size
                (superblock_front sb) range parts.magic,
        record { content_same = same; size_same = cap; superblock_same = sym f.superblock_same },
      )

  -- A reliable device does not mount if block 0 holds a superblock in range with another magic
  -- number.
  pub mount_other_magic :
      (d : D) (sb : SuperBlock)
      → 0 < dev.capacity d
      → length (rel.blocks d 0) ≡ 512
      → ref_from_bytes (take 64 (drop 0 (rel.blocks d 0))) ≡ some (from_super_block sb)
      → IsInRange sb
      → sb.magic_number ≢ magic_number
      → mount d ≡ done (err invalid_super_block)
  unfolding mount_buffer
  mount_other_magic d sb pos len bytes r ne =
      let (d', read, same, cap) =
        rel.read_lem d 0 zero_block (length-replicate {A = ℕ} 512 0) pos in
      let fits : leb (0 + 64) (length (rel.blocks d 0)) ≡ true = ground arith in
      let not_magic : (sb.magic_number == magic_number) ≡ false = ground arith in
      mount_read d d' _ _ read ∙ rw (fits, bytes, try_from-from_super_block sb r, not_magic)
