-- ===== src/Kernel/FirstBoot.antt =====
-- src/main.rs: `kernel_main` on a disk that has no file system.
use blog_os.Base.{
  ℕ, zero, suc, ◌+◌, ◌-◌, ◌/◌, ◌%◌, ◌^◌, ◌≤◌, ◌<◌, ◌≡◌, ◌≢◌, refl, ap, sym, subst, ◌∙◌, List, [],
  ◌∷◌, some, ok, err, done, length, arith, Bool, true, false, ◌||◌, ◌==◌, inl, inr, Bool-cases,
  replicate, take-append,
}
use blog_os.Fs.Zerocopy.{Zerocopy}
use blog_os.Fs.BlockDev.{BlockDevice, FileSystemError}
use blog_os.Fs.Layout.Dirents.{entries_from, entries_lem, entry_at, is_used}
use blog_os.Fs.SimpleFs.State.{Sfs}
use blog_os.Fs.SimpleFs.Volume.{mount}
use blog_os.Fs.SimpleFs.Dirs.{new_entry}
use blog_os.Fs.SimpleFs.Files.{same_bytes, FileError}
use blog_os.Fs.SimpleFs.Mounting.{format_lem}
use blog_os.Fs.SimpleFs.Reliable.{IsReliable, IsBlock, content}
use blog_os.Fs.SimpleFs.Scan.{hits, any_hit, first_unused}
use blog_os.Fs.SimpleFs.Create.{IsName, root_entries}
use blog_os.Fs.SimpleFs.Existing.{create_file-create_file}
use blog_os.Fs.SimpleFs.Entries.{flags_used}
use blog_os.Fs.SimpleFs.Blank.{zero_entry, zero_entry-unused}
use blog_os.Fs.SimpleFs.Root.{HasRoot, Same-HasRoot}
use blog_os.Fs.SimpleFs.Initialize.{dot, dots, IsRootBlock, IsNew, init_root_directory_lem}
use blog_os.Kernel.{open_fs, create_twice}

same_bytes-true : (xs ys : List ℕ) → same_bytes xs ys ≡ true → xs ≡ ys
unfolding same_bytes
same_bytes-true [] [] h = refl
same_bytes-true [] (y ∷ ys) h = absurd cc
same_bytes-true (x ∷ xs) [] h = absurd cc
same_bytes-true (x ∷ xs) (y ∷ ys) h = elim (Bool-cases (x == y)) [
  | inr differ ↦ let bad = rw (same_bytes, differ) at h in absurd cc
  | inl e ↦
      let rest = rw (same_bytes, e) at h in
      let front : x ≡ y = ground (arith, e) in
      ap (λ n. n ∷ xs) front ∙ ap (λ l. y ∷ l) (same_bytes-true xs ys rest)
]

same_bytes-false : (xs ys : List ℕ) → xs ≢ ys → same_bytes xs ys ≡ false
same_bytes-false xs ys ne = elim (Bool-cases (same_bytes xs ys)) [
  | inl e ↦ absurd (ne (same_bytes-true xs ys e))
  | inr e ↦ e
]

all_false : (a b c : Bool) → a ≡ false → b ≡ false → c ≡ false → (a || (b || c)) ≡ false
all_false a b c ha hb hc = rw (ha, hb, hc) refl

module _ ⦃z : Zerocopy⦄ where
  pub hits-new_entry :
      (inode : ℕ) (own name : List ℕ)
      → length own ≤ 52
      → hits name (new_entry inode own) ≡ same_bytes own name
  unfolding new_entry
  hits-new_entry inode own name h =
      let len : z.get 2 (z.new 2 (length own % 2 ^ 16)) ≡ length own =
        z.get-new 2 (length own % 2 ^ 16) (omega arith) ∙ omega arith in
      rw
        (
          flags_used inode own,
          len,
          take-append (length own) own (replicate (52 - length own) 8) refl,
        )
        refl

  hits-zero_entry : (name : List ℕ) → hits name zero_entry ≡ false
  hits-zero_entry name = rw zero_entry-unused refl

  any_hit_zeros :
      (name block : List ℕ) (n i : ℕ)
      → 2 ≤ i
      → i + n ≤ 8
      → ((j : ℕ) → 2 ≤ j → j < 8 → entry_at block j ≡ zero_entry)
      → any_hit name (entries_from block i n) ≡ false
  any_hit_zeros name block zero i low h r = refl
  any_hit_zeros name block (suc n) i low h r =
      all_false (hits name (entry_at block i)) false _
        (ap (hits name) (r i low (omega arith)) ∙ hits-zero_entry name) refl
        (any_hit_zeros name block n (i + 1) (omega arith) (omega arith) r)

  new_root_free :
      (block name : List ℕ)
      → IsRootBlock block
      → name ≢ dot
      → name ≢ dots
      → (any_hit name (entries_from block 0 8) ≡ false)
        × (first_unused (entries_from block 0 8) 0 ≡ some 2)
  new_root_free block name r not_dot not_dots =
      let miss₀ : hits name (entry_at block 0) ≡ false =
        ap (hits name) r.first
        ∙ hits-new_entry 0 dot name (omega arith)
        ∙ same_bytes-false dot name (λ e. not_dot (sym e)) in
      let miss₁ : hits name (entry_at block 1) ≡ false =
        ap (hits name) r.second
        ∙ hits-new_entry 0 dots name (omega arith)
        ∙ same_bytes-false dots name (λ e. not_dots (sym e)) in
      let rest : any_hit name (entries_from block 2 6) ≡ false =
        any_hit_zeros name block 6 2 (omega arith) (omega arith) r.others in
      let used₀ : is_used (entry_at block 0) ≡ true = ap is_used r.first ∙ flags_used 0 dot in
      let used₁ : is_used (entry_at block 1) ≡ true = ap is_used r.second ∙ flags_used 0 dots in
      let free₂ : is_used (entry_at block 2) ≡ false =
        ap is_used (r.others 2 (omega arith) (omega arith)) ∙ zero_entry-unused in
      (
        all_false (hits name (entry_at block 0)) (hits name (entry_at block 1)) _ miss₀ miss₁ rest,
        rw (used₀, used₁, free₂) refl,
      )

module _ {D : Type 0} ⦃dev : BlockDevice D⦄ ⦃z : Zerocopy⦄ (rel : IsReliable dev)
    (name : List ℕ) where
  pub IsNew-free :
      (s : Sfs D) (b : ℕ)
      → IsNew rel s b
      → name ≢ dot
      → name ≢ dots
      → (any_hit name (root_entries rel s b) ≡ false)
        × (first_unused (root_entries rel s b) 0 ≡ some 2)
  IsNew-free s b n not_dot not_dots =
      let listed = entries_lem (content rel s b) n.root_block.is_block.size in
      let (miss, free) = new_root_free (content rel s b) name n.root_block not_dot not_dots in
      (ap (any_hit name) listed ∙ miss, ap (λ es. first_unused es 0) listed ∙ free)

module _ {D : Type 0} ⦃dev : BlockDevice D⦄ ⦃z : Zerocopy⦄ (rel : IsReliable dev) (name : List ℕ)
    (is_name : IsName name) (not_dot : name ≢ dot) (not_dots : name ≢ dots) where
  -- What the two calls do on a new file system: the first creates the file with the inode 1, and
  -- the second is refused with `Corrupt`.
  create_twice-IsNew :
      (s : Sfs D) (b : ℕ)
      → IsNew rel s b
      → (s' : Sfs D) × (create_twice name s
          ≡ done (ok (record { index = 1 }), err FileError.corrupt, s'))
        × HasRoot rel s' b
  unfolding create_twice
  create_twice-IsNew s b n =
      let (miss, free) = IsNew-free rel name s b n not_dot not_dots in
      let (s₁, s₂, made, h₁, again, same) =
        create_file-create_file rel s b 2 1 name n.has_root is_name miss free n.first_inode
          (omega (arith, n.has_root.behind_table)) (omega arith) in
      (s₂, rw (create_twice, made, again) refl, Same-HasRoot rel s₁ s₂ b same h₁)

  -- On a disk of ten blocks or more that does not fail and does not mount, the kernel formats it
  -- and makes its root directory without a panic. Then the first of its two calls of `create_file`,
  -- for a name other than `.` and `..`, creates the file with the inode 1, the second is refused
  -- with `Corrupt`, and the file system has its root directory.
  pub first_boot :
      (d d' : D) (e : FileSystemError)
      → mount d ≡ done (err e)
      → ((id : ℕ) → IsBlock (rel.blocks d' id))
      → 10 ≤ dev.capacity d'
      → dev.capacity d' < 2 ^ 64
      → (s : Sfs D) × (s' : Sfs D) × (open_fs d (done d') ≡ done s)
        × (create_twice name s ≡ done (ok (record { index = 1 }), err FileError.corrupt, s'))
        × (s.superblock.data_block_start ≡ 3 + dev.capacity d' / 10)
        × HasRoot rel s' s.superblock.data_block_start
  unfolding open_fs
  first_boot d d' e unmounted blocks big room =
      let (sb, fs, formatted, parts, range, f) = format_lem rel d' blocks (omega arith) room in
      let sb_same : fs.superblock ≡ sb = f.superblock_same in
      let start : fs.superblock.data_block_start ≡ 3 + dev.capacity d' / 10 =
        ap (λ q. q.data_block_start) sb_same ∙ parts.data_start in
      let b : ℕ = fs.superblock.data_block_start in
      let (s, initialized, sb_kept, new) =
        init_root_directory_lem rel fs b f.ready
          (ap (λ q. q.inode_bitmap_block) sb_same ∙ parts.bitmaps.0)
          (ap (λ q. q.inode_table_start_block) sb_same ∙ parts.table) refl
          (omega (arith, start, big)) (omega (arith, start, big, f.size_same)) f.inodes_free
          f.data_free in
      let (s', created, root) = create_twice-IsNew s b new in
      (
        s,
        s',
        rw (open_fs, unmounted, formatted, initialized) refl,
        created,
        ap (λ q. q.data_block_start) sb_kept ∙ start,
        subst (λ n. HasRoot rel s' n) (sym (ap (λ q. q.data_block_start) sb_kept)) root,
      )
