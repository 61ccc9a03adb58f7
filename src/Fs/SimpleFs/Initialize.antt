-- ===== src/Fs/SimpleFs/Initialize.antt =====
-- src/fs/simple_fs.rs: what `init_root_directory` leaves on a disk that `format` divided.
use blog_os.Base.{
  ℕ, ◌+◌, ◌≤◌, ◌<◌, ◌≡◌, refl, ap, sym, subst, ◌∙◌, List, [], ◌∷◌, some, ok, done, arith, inl, inr,
  replicate,
}
use native.Mathlib.Decide.{ℕ_discrete}
use blog_os.Fs.Zerocopy.{Zerocopy}
use blog_os.Fs.BlockDev.{BlockDevice}
use blog_os.Fs.Layout.{FileType}
use blog_os.Fs.Layout.Inodes.{Inode, IsInRange}
use blog_os.Fs.Layout.Dirents.{entry_at}
use blog_os.Fs.Layout.Bitmaps.{bits, first_false}
use blog_os.Fs.SimpleFs.State.{Sfs, zero_block, read_block, write_block}
use blog_os.Fs.SimpleFs.Inodes.{write_inode}
use blog_os.Fs.SimpleFs.Dirs.{fresh_inode, new_entry, write_dirent_into_block, init_root_directory}
use blog_os.Fs.SimpleFs.Volume.{allocate_data_block}
use blog_os.Fs.SimpleFs.Allocation.{block_bits, allocate_data_block-some}
use blog_os.Fs.SimpleFs.Reliable.{
  IsReliable, IsBlock, content, size, IsReady, read_block_lem, write_block_lem, zero_block-IsBlock,
  Same-IsReady, Updated-IsReady,
}
use blog_os.Fs.SimpleFs.Entries.{write_dirent_into_block_lem}
use blog_os.Fs.SimpleFs.Scan.{IsReadable}
use blog_os.Fs.SimpleFs.Root.{inode_at-same, HasRoot, write_inode-Written}
use blog_os.Fs.SimpleFs.Fresh.{write_dirent_into_block-IsByte, new_entry-IsReadable}
use blog_os.Fs.SimpleFs.Blank.{
  root_bitmap, mark_root_zeros, first_root, first_zeros, root_bitmap-IsBlock, zero_entry,
  entry_at-zeros, zero_entry-IsReadable,
}

abbrev pub dot : List ℕ
dot = b'.' ∷ []

abbrev pub dots : List ℕ
dots = b'.' ∷ b'.' ∷ []

-- The directory block that `init_root_directory` writes.
pub record IsRootBlock ⦃z : Zerocopy⦄ (block : List ℕ) : Type 0 where
  pub is_block : IsBlock block
  pub first : entry_at block 0 ≡ new_entry 0 dot
  pub second : entry_at block 1 ≡ new_entry 0 dots
  pub others : (j : ℕ) → 2 ≤ j → j < 8 → entry_at block j ≡ zero_entry

module _ ⦃z : Zerocopy⦄ where
  root_block_lem :
      (block₁ : List ℕ) × (block₂ : List ℕ) × (write_dirent_into_block zero_block 0 0 dot
        ≡ done (ok block₁))
      × (write_dirent_into_block block₁ 1 0 dots ≡ done (ok block₂))
      × IsRootBlock block₂
  root_block_lem =
      elim (write_dirent_into_block_lem zero_block 0 0 dot zero_block-IsBlock.size (omega arith)) [
        | inr (long, e) ↦ absurd (omega arith)
        | inl (short, (block₁, put₁, len₁, here₁, other₁)) ↦
            elim (write_dirent_into_block_lem block₁ 1 0 dots len₁ (omega arith)) [
              | inr (long, e) ↦ absurd (omega arith)
              | inl (short₂, (block₂, put₂, len₂, here₂, other₂)) ↦
                  let bytes₁ =
                    write_dirent_into_block-IsByte zero_block 0 0 dot zero_block-IsBlock.size
                      (omega arith) short zero_block-IsBlock.bytes (omega arith, tt) put₁ in
                  let bytes₂ =
                    write_dirent_into_block-IsByte block₁ 1 0 dots len₁ (omega arith) short₂ bytes₁
                      (omega arith, (omega arith, tt)) put₂ in
                  (
                    block₁,
                    block₂,
                    put₁,
                    put₂,
                    record {
                      is_block = record { size = len₂; bytes = bytes₂ };
                      first = other₂ 0 (omega arith) (omega arith) ∙ here₁;
                      second = here₂;
                      others = λ j low lt.
                          other₂ j lt (omega arith)
                          ∙ other₁ j lt (omega arith)
                          ∙ entry_at-zeros j lt;
                    },
                  )
            ]
      ]

  pub IsRootBlock-IsReadable :
      (block : List ℕ) → IsRootBlock block → (j : ℕ) → j < 8 → IsReadable (entry_at block j)
  IsRootBlock-IsReadable block r j lt = elim (ℕ_discrete j 0) [
    | yes e ↦
        subst IsReadable (sym (ap (entry_at block) e ∙ r.first))
          (new_entry-IsReadable 0 dot (omega arith))
    | no ne ↦ elim (ℕ_discrete j 1) [
      | yes e ↦
          subst IsReadable (sym (ap (entry_at block) e ∙ r.second))
            (new_entry-IsReadable 0 dots (omega arith))
      | no ne₁ ↦ subst IsReadable (sym (r.others j (omega arith) lt)) zero_entry-IsReadable
    ]
  ]

-- The inode of the root directory.
abbrev pub root_inode : ℕ → Inode
root_inode b = fresh_inode FileType.directory 2 (b ∷ replicate 9 0)

module _ {D : Type 0} ⦃dev : BlockDevice D⦄ ⦃z : Zerocopy⦄ (rel : IsReliable dev) where
  -- The root directory of a new file system: it has `.` and `..`, and the first free inode is 1.
  pub record IsNew (s : Sfs D) (b : ℕ) : Type 0 where
    pub has_root : HasRoot rel s b
    pub first_inode : first_false (block_bits rel s 1) ≡ some 1
    pub root_block : IsRootBlock (content rel s b)

  run_lem :
      (ibuf block₁ block₂ : List ℕ) (b : ℕ) (s s₁ s₂ s₃ s₄ s₅ : Sfs D)
      → ibuf ≡ zero_block
      → read_block 1 s ≡ done (ok ibuf, s₁)
      → write_block 1 root_bitmap s₁ ≡ done (ok tt, s₂)
      → allocate_data_block s₂ ≡ done (ok b, s₃)
      → write_inode (root_inode b) 0 s₃ ≡ done (ok tt, s₄)
      → write_dirent_into_block zero_block 0 0 dot ≡ done (ok block₁)
      → write_dirent_into_block block₁ 1 0 dots ≡ done (ok block₂)
      → write_block b block₂ s₄ ≡ done (ok tt, s₅)
      → init_root_directory s ≡ done (ok tt, s₅)
  unfolding init_root_directory
  run_lem ibuf block₁ block₂ b s s₁ s₂ s₃ s₄ s₅ blank read marked took wrote put₁ put₂ saved =
      rw (init_root_directory, read, blank, mark_root_zeros, marked, took, wrote, put₁, put₂, saved)
        refl

  -- The bitmaps are written, and nothing else.
  record Prepared (s s' : Sfs D) : Type 0 where
    ready : IsReady rel s'
    superblock_same : s'.superblock ≡ s.superblock
    size_same : size rel s' ≡ size rel s
    root_bits : content rel s' 1 ≡ root_bitmap

  prepare :
      (s : Sfs D) (b : ℕ)
      → IsReady rel s
      → s.superblock.data_block_start ≡ b
      → 3 < b
      → b < size rel s
      → content rel s 2 ≡ zero_block
      → (s₁ : Sfs D) × (s₂ : Sfs D) × (s₃ : Sfs D) × (read_block 1 s
          ≡ done (ok (content rel s 1), s₁))
        × (write_block 1 root_bitmap s₁ ≡ done (ok tt, s₂))
        × (allocate_data_block s₂ ≡ done (ok b, s₃))
        × Prepared s s₃
  prepare s b ready start behind on_disk data_free =
      let (s₁, read, same₁) = read_block_lem rel s 1 (omega (arith, behind, on_disk)) in
      let (s₂, marked, up₂) =
        write_block_lem rel s₁ 1 root_bitmap root_bitmap-IsBlock.size
          (omega (arith, behind, on_disk, same₁.size_same)) in
      let ready₂ : IsReady rel s₂ =
        Updated-IsReady rel s₁ s₂ 1 root_bitmap up₂ root_bitmap-IsBlock
          (Same-IsReady rel s s₁ same₁ ready) in
      let sb₂ : s₂.superblock ≡ s.superblock = up₂.superblock_same ∙ same₁.superblock_same in
      let start₂ : s₂.superblock.data_block_start ≡ b = ap (λ q. q.data_block_start) sb₂ ∙ start in
      let size₂ : size rel s₂ ≡ size rel s = up₂.size_same ∙ same₁.size_same in
      let blank₂ : content rel s₂ 2 ≡ zero_block =
        up₂.content_other 2 (omega arith) ∙ same₁.content_same 2 ∙ data_free in
      let (s₃, took, m) =
        allocate_data_block-some rel s₂ 0 ready₂ (omega (arith, behind, on_disk, size₂))
          (omega (arith, start₂, on_disk, ready.room))
          (ap (λ c. first_false (bits c)) blank₂ ∙ first_zeros) in
      let number : s₂.superblock.data_block_start + 0 ≡ b = omega (arith, start₂) in
      (
        s₁,
        s₂,
        s₃,
        read,
        marked,
        took ∙ ap (λ n. done (ok n, s₃)) number,
        record {
          ready = m.ready;
          superblock_same = m.superblock_same ∙ sb₂;
          size_same = m.size_same ∙ size₂;
          root_bits = m.other 1 (omega arith) ∙ up₂.content_here;
        },
      )

  conclude :
      (s : Sfs D) (b : ℕ) (block : List ℕ)
      → IsReady rel s
      → s.superblock.inode_bitmap_block ≡ 1
      → s.superblock.inode_table_start_block ≡ 3
      → 3 < b
      → b < size rel s
      → content rel s 1 ≡ root_bitmap
      → IsRootBlock block
      → (s₁ : Sfs D) × (s₂ : Sfs D) × (write_inode (root_inode b) 0 s ≡ done (ok tt, s₁))
        × (write_block b block s₁ ≡ done (ok tt, s₂))
        × (s₂.superblock ≡ s.superblock)
        × IsNew s₂ b
  conclude s b block ready bitmap table behind on_disk root_bits r =
      let range : IsInRange (root_inode b) = omega (arith, on_disk, ready.room) in
      let (s₁, wrote, w) =
        write_inode-Written rel s (root_inode b) 0 ready range
          (omega (arith, table, behind, on_disk)) in
      let (s₂, saved, up) =
        write_block_lem rel s₁ b block r.is_block.size (omega (arith, w.size_same, on_disk)) in
      let table₁ : s₁.superblock.inode_table_start_block ≡ 3 =
        ap (λ q. q.inode_table_start_block) w.superblock_same ∙ table in
      let sb : s₂.superblock ≡ s.superblock = up.superblock_same ∙ w.superblock_same in
      let table₂ : s₂.superblock.inode_table_start_block ≡ 3 =
        ap (λ q. q.inode_table_start_block) sb ∙ table in
      let bits₂ : content rel s₂ 1 ≡ root_bitmap =
        up.content_other 1 (omega (arith, behind))
        ∙ w.other_blocks 1 (omega (arith, table))
        ∙ root_bits in
      (
        s₁,
        s₂,
        wrote,
        saved,
        sb,
        record {
          has_root = record {
            ready = Updated-IsReady rel s₁ s₂ b block up r.is_block w.ready;
            root = root_inode b;
            root_there =
                inode_at-same rel s₁ s₂ 0 up.superblock_same
                  (up.content_other _ (omega (arith, table₁, behind)))
                ∙ w.here;
            directory = refl;
            pointer = refl;
            table = omega (arith, table₂);
            bitmap = ap (λ q. q.inode_bitmap_block) sb ∙ bitmap;
            behind_table = omega (arith, table₂, behind);
            on_disk = omega (arith, up.size_same, w.size_same, on_disk);
            readable = λ j lt.
                subst (λ c. IsReadable (entry_at c j)) (sym up.content_here)
                  (IsRootBlock-IsReadable block r j lt);
          };
          first_inode = ap (λ c. first_false (bits c)) bits₂ ∙ first_root;
          root_block = subst IsRootBlock (sym up.content_here) r;
        },
      )

  -- On a disk with two empty bitmaps and an inode table of a block or more, `init_root_directory`
  -- makes the first data block a directory with `.` and `..`, and the inode 0 its inode.
  pub init_root_directory_lem :
      (s : Sfs D) (b : ℕ)
      → IsReady rel s
      → s.superblock.inode_bitmap_block ≡ 1
      → s.superblock.inode_table_start_block ≡ 3
      → s.superblock.data_block_start ≡ b
      → 3 < b
      → b < size rel s
      → content rel s 1 ≡ zero_block
      → content rel s 2 ≡ zero_block
      → (s' : Sfs D) × (init_root_directory s ≡ done (ok tt, s'))
        × (s'.superblock ≡ s.superblock)
        × IsNew s' b
  init_root_directory_lem s b ready bitmap table start behind on_disk inodes_free data_free =
      let (s₁, s₂, s₃, read, marked, took, p) = prepare s b ready start behind on_disk data_free in
      let (block₁, block₂, put₁, put₂, r) = root_block_lem in
      let (s₄, s₅, wrote, saved, sb, new) =
        conclude s₃ b block₂ p.ready (ap (λ q. q.inode_bitmap_block) p.superblock_same ∙ bitmap)
          (ap (λ q. q.inode_table_start_block) p.superblock_same ∙ table) behind
          (omega (arith, p.size_same, on_disk)) p.root_bits r in
      (
        s₅,
        run_lem _ block₁ block₂ b s s₁ s₂ s₃ s₄ s₅ inodes_free read marked took wrote put₁ put₂
            saved,
        sb ∙ p.superblock_same,
        new,
      )
