-- ===== src/Fs/SimpleFs/Allocation.antt =====
-- `SFS::allocate_inode` and `SFS::allocate_data_block` on a device that does not fail.
use blog_os.Base.{
  ℕ, ◌+◌, ◌^◌, ◌<◌, ◌≡◌, ◌≢◌, ap, ◌∙◌, List, Bool, true, none, some, ok, err, done, set,
}
use blog_os.Base.Words.{add_usize-done}
use blog_os.Fs.BlockDev.{BlockDevice, no_space}
use blog_os.Fs.Layout.Bitmaps.{
  bits, first_false, find_and_set_first_free, find_and_set_first_free-some,
  find_and_set_first_free-none,
}
use blog_os.Fs.SimpleFs.State.{Sfs, read_block, write_block}
use blog_os.Fs.SimpleFs.Volume.{allocate_inode, allocate_data_block}
use blog_os.Fs.SimpleFs.Reliable.{
  IsReliable, IsBlock, content, size, IsReady, Same, Updated, read_block_lem, write_block_lem,
  Updated-IsReady, Same-Updated,
}

module _ {D : Type 0} ⦃dev : BlockDevice D⦄ (rel : IsReliable dev) where
  -- The bits of a bitmap block.
  abbrev pub block_bits : Sfs D → ℕ → List Bool
  block_bits s id = bits (content rel s id)

  -- `s'` is `s` with bit `i` of the bitmap in block `id` set.
  pub record Marked (s : Sfs D) (id i : ℕ) (s' : Sfs D) : Type 0 where
    pub bit : block_bits s' id ≡ set (block_bits s id) i true
    pub other : (k : ℕ) → k ≢ id → content rel s' k ≡ content rel s k
    pub size_same : size rel s' ≡ size rel s
    pub superblock_same : s'.superblock ≡ s.superblock
    pub ready : IsReady rel s'

  -- Reading a bitmap, taking the first clear bit and writing it back.
  take_first :
      (s : Sfs D) (id i : ℕ)
      → IsReady rel s
      → id < size rel s
      → first_false (block_bits s id) ≡ some i
      → (map : List ℕ) × (s₁ : Sfs D) × (s₂ : Sfs D) × (read_block id s
          ≡ done (ok (content rel s id), s₁))
        × (s₁.superblock ≡ s.superblock)
        × (find_and_set_first_free (content rel s id) ≡ done (some i, map))
        × (write_block id map s₁ ≡ done (ok tt, s₂))
        × Marked s id i s₂
  take_first s id i h lt e =
      let b : IsBlock (content rel s id) = h.blocks id in
      let (s₁, read, same) = read_block_lem rel s id lt in
      let (map, found, set_map, keeps) =
        find_and_set_first_free-some (content rel s id) i b.bytes e in
      let (s₂, wrote, up) =
        write_block_lem rel s₁ id map (keeps.size ∙ b.size) (rw same.size_same lt) in
      let u : Updated rel s id map s₂ = Same-Updated rel s s₁ s₂ id map same up in
      (
        map,
        s₁,
        s₂,
        read,
        same.superblock_same,
        found,
        wrote,
        record {
          bit = ap bits u.content_here ∙ set_map;
          other = u.content_other;
          size_same = u.size_same;
          superblock_same = u.superblock_same;
          ready =
              Updated-IsReady rel s s₂ id map u
                (record { size = keeps.size ∙ b.size; bytes = keeps.bytes }) h;
        },
      )

  -- On a reliable device whose blocks hold 512 bytes, with the inode bitmap in block 1, that block on
  -- the disk and a clear bit in it: `allocate_inode` returns the first one's number and sets that
  -- bit, and nothing else changes on the disk.
  pub allocate_inode-some :
      (s : Sfs D) (i : ℕ)
      → IsReady rel s
      → 1 < size rel s
      → s.superblock.inode_bitmap_block ≡ 1
      → first_false (block_bits s 1) ≡ some i
      → (s' : Sfs D) × (allocate_inode s ≡ done (ok i, s')) × Marked s 1 i s'
  unfolding allocate_inode
  allocate_inode-some s i h lt sb e =
      let (map, s₁, s₂, read, sb₁, found, wrote, marked) = take_first s 1 i h lt e in
      let at : s₁.superblock.inode_bitmap_block ≡ 1 = ap (λ q. q.inode_bitmap_block) sb₁ ∙ sb in
      (s₂, rw (read, found, at, wrote), marked)

  -- On a reliable device with block 1 on the disk and no clear bit in it, `allocate_inode` fails with
  -- `NoSpace`, and nothing changes on the disk.
  pub allocate_inode-none :
      (s : Sfs D)
      → 1 < size rel s
      → first_false (block_bits s 1) ≡ none
      → (s' : Sfs D) × (allocate_inode s ≡ done (err no_space, s')) × Same rel s s'
  unfolding allocate_inode
  allocate_inode-none s lt e =
      let (s₁, read, same) = read_block_lem rel s 1 lt in
      (s₁, rw (read, find_and_set_first_free-none (content rel s 1) e), same)

  -- On a reliable device whose blocks hold 512 bytes, with block 2 on the disk, a clear bit in it and
  -- a block number that fits a `u64`: `allocate_data_block` returns the block that the first one
  -- stands for and sets that bit, and nothing else changes on the disk.
  pub allocate_data_block-some :
      (s : Sfs D) (i : ℕ)
      → IsReady rel s
      → 2 < size rel s
      → s.superblock.data_block_start + i < 2 ^ 64
      → first_false (block_bits s 2) ≡ some i
      → (s' : Sfs D) × (allocate_data_block s ≡ done (ok (s.superblock.data_block_start + i), s'))
        × Marked s 2 i s'
  unfolding allocate_data_block
  allocate_data_block-some s i h lt room e =
      let (map, s₁, s₂, read, sb₁, found, wrote, marked) = take_first s 2 i h lt e in
      let start : s₂.superblock.data_block_start ≡ s.superblock.data_block_start =
        ap (λ q. q.data_block_start) marked.superblock_same in
      (
        s₂,
        rw (read, found, wrote, start, add_usize-done s.superblock.data_block_start i room),
        marked,
      )

  -- On a reliable device with block 2 on the disk and no clear bit in it, `allocate_data_block` fails
  -- with `NoSpace`, and nothing changes on the disk.
  pub allocate_data_block-none :
      (s : Sfs D)
      → 2 < size rel s
      → first_false (block_bits s 2) ≡ none
      → (s' : Sfs D) × (allocate_data_block s ≡ done (err no_space, s')) × Same rel s s'
  unfolding allocate_data_block
  allocate_data_block-none s lt e =
      let (s₁, read, same) = read_block_lem rel s 2 lt in
      (s₁, rw (read, find_and_set_first_free-none (content rel s 2) e), same)
