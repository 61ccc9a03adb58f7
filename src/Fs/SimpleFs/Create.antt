-- ===== src/Fs/SimpleFs/Create.antt =====
-- src/fs/simple_fs.rs: what `create_file_in_root` does on a device that does not fail.
use blog_os.Base.{
  ℕ, ◌+◌, ◌/◌, ◌≤◌, ◌<◌, ◌≡◌, ◌≢◌, refl, ap, ◌∙◌, List, none, some, ok, err, done, length, All,
  arith, get_or, set, true, false, inl, inr, if◌then◌else◌, ◌==◌, ltb, ◌||◌, replicate,
}
use blog_os.Fs.Zerocopy.{Zerocopy}
use blog_os.Fs.BlockDev.{BlockDevice, corrupt_layout, no_space}
use blog_os.Fs.Layout.{FileType, block_size}
use blog_os.Fs.Layout.Inodes.{Inode}
use blog_os.Fs.Layout.Dirents.{DiskDirEntry, entry_at, entries, entries_from, entries_lem}
use blog_os.Fs.Layout.Bitmaps.{bits, first_false}
use blog_os.Fs.SimpleFs.State.{Sfs, read_block, write_block}
use blog_os.Fs.SimpleFs.Inodes.{read_inode, write_inode}
use blog_os.Fs.SimpleFs.Dirs.{fresh_inode, new_entry, write_dirent_into_block}
use blog_os.Fs.SimpleFs.Files.{scan_entries, create_file_in_root}
use blog_os.Fs.SimpleFs.Volume.{allocate_inode}
use blog_os.Fs.SimpleFs.Allocation.{block_bits, allocate_inode-some, allocate_inode-none}
use blog_os.Fs.SimpleFs.Reliable.{
  IsReliable, content, size, IsReady, Same, read_block_lem, write_block_lem, Same-IsReady,
  Updated-IsReady,
}
use blog_os.Fs.SimpleFs.Table.{block_of, read_inode_lem}
use blog_os.Fs.SimpleFs.Scan.{any_hit, first_unused, scan_entries_lem}
use blog_os.Fs.SimpleFs.Entries.{write_dirent_into_block_lem}
use blog_os.Fs.SimpleFs.Root.{
  inode_at, HasRoot, write_inode-Written, All-entries_from, inode_at-same,
}
use blog_os.Fs.SimpleFs.Fresh.{
  fresh_file-IsInRange, first_unused-lt, write_dirent_into_block-IsByte,
}
use blog_os.Base.Bytes.{IsByte}

-- A name that `create_file_in_root` does not refuse.
pub record IsName (name : List ℕ) : Type 0 where
  pub some_byte : 0 < length name
  pub fits : length name ≤ 52
  pub bytes : All IsByte name

name_guard : (name : List ℕ) → IsName name → (ltb 52 (length name) || length name == 0) ≡ false
name_guard name h = ground arith

module _ {D : Type 0} ⦃dev : BlockDevice D⦄ ⦃z : Zerocopy⦄ (rel : IsReliable dev) where
  -- The entries of the root directory.
  abbrev pub root_entries : Sfs D → ℕ → List DiskDirEntry
  root_entries s b = entries (content rel s b)

  -- The reads and the scan with which `create_file_in_root` begins.
  pub open_lem :
      (s : Sfs D) (b : ℕ) (name : List ℕ) (h : HasRoot rel s b)
      → (s₁ : Sfs D) × (s₂ : Sfs D) × (read_inode 0 s ≡ done (ok h.root, s₁))
        × (read_block b s₁ ≡ done (ok (content rel s b), s₂))
        × (scan_entries (root_entries s b) 0 name none
            ≡ done (
                if any_hit name (root_entries s b)
                then err corrupt_layout
                else ok (first_unused (root_entries s b) 0)))
        × Same rel s s₂
  open_lem s b name h =
      let (s₁, read, same₁) =
        read_inode_lem rel s 0 h.ready (omega (arith, h.behind_table, h.on_disk)) in
      let (s₂, got, same₂) = read_block_lem rel s₁ b (omega (arith, same₁.size_same, h.on_disk)) in
      let listed = entries_lem (content rel s b) (h.ready.blocks b).size in
      (
        s₁,
        s₂,
        read ∙ ap (λ a. done (a, s₁)) h.root_there,
        got ∙ ap (λ c. done (ok c, s₂)) (same₁.content_same b),
        scan_entries_lem (root_entries s b) name
            (rw listed (All-entries_from (content rel s b) 8 0 (omega arith) h.readable)),
        record {
          content_same = λ id. same₂.content_same id ∙ same₁.content_same id;
          size_same = same₂.size_same ∙ same₁.size_same;
          superblock_same = same₂.superblock_same ∙ same₁.superblock_same;
        },
      )

  -- A name that an entry in use has is refused, and nothing changes on the disk.
  pub create_file_in_root-exists :
      (s : Sfs D) (b : ℕ) (name : List ℕ)
      → HasRoot rel s b
      → IsName name
      → any_hit name (root_entries s b) ≡ true
      → (s' : Sfs D) × (create_file_in_root name s ≡ done (err corrupt_layout, s')) × Same rel s s'
  unfolding create_file_in_root
  create_file_in_root-exists s b name h n hit =
      let (s₁, s₂, read, got, scan, same) = open_lem s b name h in
      let nonzero : (b == 0) ≡ false = ground (arith, h.behind_table) in
      let scanned = rw hit at scan in
      (
        s₂,
        rw
            (
              create_file_in_root,
              name_guard name n,
              read,
              h.directory,
              h.pointer,
              nonzero,
              got,
              scanned,
            )
            refl,
        same,
      )

  -- With eight entries in use, none of which has the name, there is no space, and nothing changes.
  pub create_file_in_root-full :
      (s : Sfs D) (b : ℕ) (name : List ℕ)
      → HasRoot rel s b
      → IsName name
      → any_hit name (root_entries s b) ≡ false
      → first_unused (root_entries s b) 0 ≡ none
      → (s' : Sfs D) × (create_file_in_root name s ≡ done (err no_space, s')) × Same rel s s'
  unfolding create_file_in_root
  create_file_in_root-full s b name h n miss full =
      let (s₁, s₂, read, got, scan, same) = open_lem s b name h in
      let nonzero : (b == 0) ≡ false = ground (arith, h.behind_table) in
      let scanned = rw (miss, full) at scan in
      (
        s₂,
        rw
            (
              create_file_in_root,
              name_guard name n,
              read,
              h.directory,
              h.pointer,
              nonzero,
              got,
              scanned,
            )
            refl,
        same,
      )

  -- With every inode allocated there is no space, and nothing changes.
  pub create_file_in_root-no_inode :
      (s : Sfs D) (b slot : ℕ) (name : List ℕ)
      → HasRoot rel s b
      → IsName name
      → any_hit name (root_entries s b) ≡ false
      → first_unused (root_entries s b) 0 ≡ some slot
      → first_false (block_bits rel s 1) ≡ none
      → (s' : Sfs D) × (create_file_in_root name s ≡ done (err no_space, s')) × Same rel s s'
  unfolding create_file_in_root
  create_file_in_root-no_inode s b slot name h n miss free none_left =
      let (s₁, s₂, read, got, scan, same) = open_lem s b name h in
      let nonzero : (b == 0) ≡ false = ground (arith, h.behind_table) in
      let scanned = rw (miss, free) at scan in
      let (s₃, failed, same₃) =
        allocate_inode-none rel s₂
          (omega (arith, same.size_same, h.behind_table, h.table, h.on_disk))
          (rw (same.content_same 1) none_left) in
      (
        s₃,
        rw
            (
              create_file_in_root,
              name_guard name n,
              read,
              h.directory,
              h.pointer,
              nonzero,
              got,
              scanned,
              failed,
            )
            refl,
        record {
          content_same = λ id. same₃.content_same id ∙ same.content_same id;
          size_same = same₃.size_same ∙ same.size_same;
          superblock_same = same₃.superblock_same ∙ same.superblock_same;
        },
      )

  -- What a new file leaves on the disk: its inode is allocated and holds an empty file, its entry
  -- stands in the slot, and every other bit, inode, entry and block is as before.
  pub record Created (s : Sfs D) (b slot i : ℕ) (name : List ℕ) (s' : Sfs D) : Type 0 where
    pub bit : block_bits rel s' 1 ≡ set (block_bits rel s 1) i true
    pub inode : inode_at rel s' i ≡ ok (fresh_inode FileType.file 1 (replicate 10 0))
    pub other_inodes : (j : ℕ) → j ≢ i → block_of rel s j < b → inode_at rel s' j ≡ inode_at rel s j
    pub entry : entry_at (content rel s' b) slot ≡ new_entry i name
    pub other_entries :
        (j : ℕ) → j < 8 → j ≢ slot → entry_at (content rel s' b) j ≡ entry_at (content rel s b) j
    pub other_blocks :
        (id : ℕ) → id ≢ 1 → id ≢ block_of rel s i → id ≢ b → content rel s' id ≡ content rel s id
    pub size_same : size rel s' ≡ size rel s
    pub superblock_same : s'.superblock ≡ s.superblock
    pub ready : IsReady rel s'

module _ {D : Type 0} ⦃dev : BlockDevice D⦄ ⦃z : Zerocopy⦄ (rel : IsReliable dev) where
  -- The calls of `create_file_in_root`, one behind the other.
  run_lem :
      (name block block' : List ℕ) (root : Inode) (b slot i : ℕ) (s s₁ s₂ s₃ s₄ s₅ : Sfs D)
      → IsName name
      → 3 < b
      → read_inode 0 s ≡ done (ok root, s₁)
      → root.mode ≡ FileType.directory
      → get_or root.direct_pointers 0 0 ≡ b
      → read_block b s₁ ≡ done (ok block, s₂)
      → scan_entries (entries block) 0 name none ≡ done (ok (some slot))
      → allocate_inode s₂ ≡ done (ok i, s₃)
      → write_inode (fresh_inode FileType.file 1 (replicate 10 0)) i s₃ ≡ done (ok tt, s₄)
      → write_dirent_into_block block slot i name ≡ done (ok block')
      → write_block b block' s₄ ≡ done (ok tt, s₅)
      → create_file_in_root name s ≡ done (ok (i, b), s₅)
  unfolding create_file_in_root
  run_lem name block block' root b slot i s s₁ s₂ s₃ s₄ s₅ n pos read dir ptr got scanned took wrote
        put saved =
      let nonzero : (b == 0) ≡ false = ground (arith, pos) in
      rw
        (
          create_file_in_root,
          name_guard name n,
          read,
          dir,
          ptr,
          nonzero,
          got,
          scanned,
          took,
          wrote,
          put,
          saved,
        )
        refl

  -- A name that no entry has is created in the first slot that is not in use, with the first inode
  -- that is free, if that inode's block lies before the directory's.
  pub create_file_in_root-Created :
      (s : Sfs D) (b slot i : ℕ) (name : List ℕ)
      → HasRoot rel s b
      → IsName name
      → any_hit name (root_entries rel s b) ≡ false
      → first_unused (root_entries rel s b) 0 ≡ some slot
      → first_false (block_bits rel s 1) ≡ some i
      → block_of rel s i < b
      → (s' : Sfs D) × (create_file_in_root name s ≡ done (ok (i, b), s'))
        × Created rel s b slot i name s'
  create_file_in_root-Created s b slot i name h n miss free first before =
      let (s₁, s₂, read, got, scan, same) = open_lem rel s b name h in
      let scanned = rw (miss, free) at scan in
      let ready₂ : IsReady rel s₂ = Same-IsReady rel s s₂ same h.ready in
      let (s₃, took, marked) =
        allocate_inode-some rel s₂ i ready₂
          (omega (arith, same.size_same, h.behind_table, h.table, h.on_disk))
          (ap (λ q. q.inode_bitmap_block) same.superblock_same ∙ h.bitmap)
          (rw (same.content_same 1) first) in
      let sb₃ : s₃.superblock ≡ s.superblock = marked.superblock_same ∙ same.superblock_same in
      let at₃ : (k : ℕ) → block_of rel s₃ k ≡ block_of rel s k =
        λ k. ap (λ q. q.inode_table_start_block + k / 4) sb₃ in
      let (s₄, wrote, w) =
        write_inode-Written rel s₃ (fresh_inode FileType.file 1 (replicate 10 0)) i marked.ready
          fresh_file-IsInRange
          (omega (arith, at₃ i, before, marked.size_same, same.size_same, h.on_disk)) in
      let block : List ℕ = content rel s b in
      let len : length block ≡ block_size = (h.ready.blocks b).size in
      let listed : first_unused (entries_from block 0 8) 0 ≡ some slot =
        rw (entries_lem block len) at free in
      let low : slot < 8 = omega (arith, first_unused-lt block 8 0 slot listed) in
      elim (write_dirent_into_block_lem block slot i name len low) [
        | inr (long, e) ↦ absurd (omega (arith, n.fits, long))
        | inl (short, (block', put, len', here, other)) ↦
            let bytes =
              write_dirent_into_block-IsByte block slot i name len low short
                (h.ready.blocks b).bytes n.bytes put in
            let size₄ : size rel s₄ ≡ size rel s =
              w.size_same ∙ marked.size_same ∙ same.size_same in
            let (s₅, saved, up) =
              write_block_lem rel s₄ b block' len' (omega (arith, size₄, h.on_disk)) in
            let old : (id : ℕ)
                → id ≢ 1
                → id ≢ block_of rel s i
                → id ≢ b
                → content rel s₅ id ≡ content rel s id =
              λ id n₁ n₂ n₃.
                up.content_other id n₃
                ∙ w.other_blocks id (λ e. n₂ (e ∙ at₃ i))
                ∙ marked.other id n₁
                ∙ same.content_same id in
            let sb₅ : s₅.superblock ≡ s₄.superblock = up.superblock_same in
            let at₄ : (k : ℕ) → block_of rel s₄ k ≡ block_of rel s k =
              λ k. ap (λ q. q.inode_table_start_block + k / 4) (w.superblock_same ∙ sb₃) in
            (
              s₅,
              run_lem name block block' h.root b slot i s s₁ s₂ s₃ s₄ s₅ n
                  (omega (arith, h.table, h.behind_table)) read h.directory h.pointer got scanned
                  took wrote put saved,
              record {
                bit =
                    ap (λ c. bits c)
                      (up.content_other 1 (λ e. absurd (omega (arith, h.table, h.behind_table)))
                        ∙ w.other_blocks 1 (λ e. absurd (omega (arith, e, at₃ i, h.table))))
                    ∙ marked.bit
                    ∙ ap (λ c. set (bits c) i true) (same.content_same 1);
                inode =
                    inode_at-same rel s₄ s₅ i sb₅ (
                      up.content_other (block_of rel s₄ i)
                        (λ e. absurd (omega (arith, e, at₄ i, before))))
                    ∙ w.here;
                other_inodes = λ j ne lt.
                    inode_at-same rel s₄ s₅ j sb₅ (
                      up.content_other (block_of rel s₄ j)
                        (λ e. absurd (omega (arith, e, at₄ j, lt))))
                    ∙ w.other j ne
                    ∙ inode_at-same rel s s₃ j sb₃ (
                        marked.other (block_of rel s j) (λ e. absurd (omega (arith, e, h.table)))
                        ∙ same.content_same (block_of rel s j));
                entry = ap (λ c. entry_at c slot) up.content_here ∙ here;
                other_entries = λ j lt ne. ap (λ c. entry_at c j) up.content_here ∙ other j lt ne;
                other_blocks = old;
                size_same = up.size_same ∙ size₄;
                superblock_same = up.superblock_same ∙ w.superblock_same ∙ sb₃;
                ready =
                    Updated-IsReady rel s₄ s₅ b block' up (record { size = len'; bytes = bytes })
                      w.ready;
              },
            )
      ]
