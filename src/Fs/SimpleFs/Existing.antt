-- ===== src/Fs/SimpleFs/Existing.antt =====
-- src/fs/simple_fs.rs: `create_file` for a new name, and then for the same name again.
use native.Mathlib.Decide.{ℕ_discrete}
use blog_os.Base.{
  ℕ, zero, suc, ◌+◌, ◌≤◌, ◌<◌, ◌≡◌, ◌≢◌, refl, ap, sym, subst, ◌∙◌, List, none, some, ok, err, done,
  done-injective, length, arith, true, false, inl, inr, Bool-cases, ◌⊎◌, ltb, ◌==◌,
}
use blog_os.Fs.Zerocopy.{Zerocopy}
use blog_os.Fs.BlockDev.{BlockDevice, FileSystemError, name_too_long}
use blog_os.Fs.Layout.Dirents.{entry_at, entries_from, entries_lem}
use blog_os.Fs.Layout.Bitmaps.{first_false}
use blog_os.Fs.SimpleFs.State.{Sfs}
use blog_os.Fs.SimpleFs.Dirs.{new_entry}
use blog_os.Fs.SimpleFs.Files.{create_file_in_root, create_file, to_file_error, FileError}
use blog_os.Fs.SimpleFs.Allocation.{block_bits}
use blog_os.Fs.SimpleFs.Reliable.{IsReliable, content, Same}
use blog_os.Fs.SimpleFs.Table.{block_of}
use blog_os.Fs.SimpleFs.Scan.{IsReadable, hits, any_hit, first_unused, has_name_lem}
use blog_os.Fs.SimpleFs.Entries.{has_name-new_entry}
use blog_os.Fs.SimpleFs.Root.{HasRoot}
use blog_os.Fs.SimpleFs.Fresh.{first_unused-lt, new_entry-IsReadable}
use blog_os.Fs.SimpleFs.Create.{
  IsName, root_entries, Created, create_file_in_root-Created, create_file_in_root-exists,
  create_file_in_root-full, create_file_in_root-no_inode,
}

module _ ⦃z : Zerocopy⦄ where
  new_entry-hits :
      (inode : ℕ) (name : List ℕ) → length name ≤ 52 → hits name (new_entry inode name) ≡ true
  unfolding new_entry
  new_entry-hits inode name h =
      let (used, _, found) = has_name-new_entry 0 name h (omega arith) in
      let same =
        sym (has_name_lem (new_entry 0 name) name (new_entry-IsReadable 0 name h)) ∙ found in
      rw (used, done-injective _ _ same) refl

  any_hit-at :
      (name block : List ℕ) (n i j : ℕ)
      → hits name (entry_at block j) ≡ true
      → i ≤ j
      → j < i + n
      → any_hit name (entries_from block i n) ≡ true
  any_hit-at name block zero i j h le lt = absurd (omega arith)
  any_hit-at name block (suc n) i j h le lt = elim (ℕ_discrete i j) [
    | yes e ↦ rw (e, h) refl
    | no ne ↦ elim (Bool-cases (hits name (entry_at block i))) [
      | inl hit ↦ rw hit refl
      | inr miss ↦ rw miss (any_hit-at name block n (i + 1) j h (omega arith) (omega arith))
    ]
  ]

module _ {D : Type 0} ⦃dev : BlockDevice D⦄ ⦃z : Zerocopy⦄ (rel : IsReliable dev) where
  -- A file system with a new file has its root directory still.
  pub Created-HasRoot :
      (s s' : Sfs D) (b slot i : ℕ) (name : List ℕ)
      → HasRoot rel s b
      → length name ≤ 52
      → i ≢ 0
      → Created rel s b slot i name s'
      → HasRoot rel s' b
  Created-HasRoot s s' b slot i name h short ne c = record {
    ready = c.ready;
    root = h.root;
    root_there = c.other_inodes 0 (λ e. ne (sym e)) (omega (arith, h.behind_table)) ∙ h.root_there;
    directory = h.directory;
    pointer = h.pointer;
    table = rw c.superblock_same h.table;
    bitmap = ap (λ q. q.inode_bitmap_block) c.superblock_same ∙ h.bitmap;
    behind_table = rw c.superblock_same h.behind_table;
    on_disk = rw c.size_same h.on_disk;
    readable = λ j lt. elim (ℕ_discrete j slot) [
      | yes e ↦
          subst IsReadable (sym (ap (entry_at (content rel s' b)) e ∙ c.entry))
            (new_entry-IsReadable i name short)
      | no apart ↦ subst IsReadable (sym (c.other_entries j lt apart)) (h.readable j lt)
    ];
  }

  Created-any_hit :
      (s s' : Sfs D) (b slot i : ℕ) (name : List ℕ)
      → length name ≤ 52
      → slot < 8
      → Created rel s b slot i name s'
      → any_hit name (root_entries rel s' b) ≡ true
  Created-any_hit s s' b slot i name short lt c =
      ap (any_hit name) (entries_lem (content rel s' b) (c.ready.blocks b).size)
      ∙ any_hit-at name (content rel s' b) 8 0 slot
          (ap (hits name) c.entry ∙ new_entry-hits i name short) (omega arith) lt

  -- Why `create_file` refuses a name, and with which error.
  pub data Refusal (s : Sfs D) (b : ℕ) (name : List ℕ) : FileError → Type 0 where
    bad_name : (length name ≡ 0) ⊎ (52 < length name) → Refusal s b name FileError.invalid_name
    exists :
        IsName name
        → any_hit name (root_entries rel s b) ≡ true
        → Refusal s b name FileError.corrupt
    directory_full :
        IsName name
        → any_hit name (root_entries rel s b) ≡ false
        → first_unused (root_entries rel s b) 0 ≡ none
        → Refusal s b name FileError.no_space
    no_inode :
        IsName name
        → any_hit name (root_entries rel s b) ≡ false
        → (slot : ℕ) → first_unused (root_entries rel s b) 0 ≡ some slot
        → first_false (block_bits rel s 1) ≡ none
        → Refusal s b name FileError.no_space

  create_file_in_root-bad_name :
      (name : List ℕ) (s : Sfs D)
      → (length name ≡ 0) ⊎ (52 < length name)
      → create_file_in_root name s ≡ done (err name_too_long, s)
  unfolding create_file_in_root
  create_file_in_root-bad_name name s (inl empty) =
      let short : ltb 52 (length name) ≡ false = ground arith in
      let test : (length name == 0) ≡ true = ground (arith, empty) in rw (short, test) refl
  create_file_in_root-bad_name name s (inr long) =
      let test : ltb 52 (length name) ≡ true = ground arith in rw test refl

  failed :
      (name : List ℕ) (s s' : Sfs D) (e : FileSystemError)
      → create_file_in_root name s ≡ done (err e, s')
      → create_file name s ≡ done (err (to_file_error e), s')
  unfolding create_file
  failed name s s' e h = rw (create_file, h) refl

  made :
      (name : List ℕ) (s s' : Sfs D) (i b : ℕ)
      → create_file_in_root name s ≡ done (ok (i, b), s')
      → create_file name s ≡ done (ok (record { index = i }), s')
  unfolding create_file
  made name s s' i b h = rw (create_file, h) refl

  -- On a file system with a root directory, `create_file` refuses a name that is empty or has more
  -- than 52 bytes with `InvalidName`, another that an entry in use has with `Corrupt`, and one that
  -- no entry has with `NoSpace` where all eight entries are in use or no inode is free. Nothing
  -- changes on the disk.
  pub create_file-Refusal :
      (s : Sfs D) (b : ℕ) (name : List ℕ) {e : FileError}
      → HasRoot rel s b
      → Refusal s b name e
      → (s' : Sfs D) × (create_file name s ≡ done (err e, s')) × Same rel s s'
  unfolding to_file_error
  create_file-Refusal s b name h (bad_name bad) = (
    s,
    failed name s s _ (create_file_in_root-bad_name name s bad),
    record { content_same = λ id. refl; size_same = refl; superblock_same = refl },
  )
  create_file-Refusal s b name h (exists n hit) =
      let (s', e, same) = create_file_in_root-exists rel s b name h n hit in
      (s', failed name s s' _ e, same)
  create_file-Refusal s b name h (directory_full n miss full) =
      let (s', e, same) = create_file_in_root-full rel s b name h n miss full in
      (s', failed name s s' _ e, same)
  create_file-Refusal s b name h (no_inode n miss slot free none_left) =
      let (s', e, same) = create_file_in_root-no_inode rel s b slot name h n miss free none_left in
      (s', failed name s s' _ e, same)

  module _ (s : Sfs D) (b slot i : ℕ) (name : List ℕ) (h : HasRoot rel s b) (n : IsName name)
      (miss : any_hit name (root_entries rel s b) ≡ false)
      (free : first_unused (root_entries rel s b) 0 ≡ some slot)
      (first : first_false (block_bits rel s 1) ≡ some i) (before : block_of rel s i < b) where
    -- On a file system with a root directory, `create_file` puts a name of 1 to 52 bytes that no
    -- entry has into the first entry that is not in use, with the first inode that is free, if the
    -- inode's block lies before the directory's. Only that entry, that inode and its bit change.
    pub create_file-Created :
        (s' : Sfs D) × (create_file name s ≡ done (ok (record { index = i }), s'))
        × Created rel s b slot i name s'
    create_file-Created =
        let (s', e, c) =
          create_file_in_root-Created rel s b slot i name h n miss free first before in
        (s', made name s s' i b e, c)

    -- The same call again, after one that took an inode other than the root's, is refused with
    -- `Corrupt` and changes nothing on the disk.
    pub create_file-create_file :
        i ≢ 0
        → (s' : Sfs D) × (s'' : Sfs D) × (create_file name s ≡ done (ok (record { index = i }), s'))
          × HasRoot rel s' b
          × (create_file name s' ≡ done (err FileError.corrupt, s''))
          × Same rel s' s''
    create_file-create_file ne =
        let (s', e, c) = create_file-Created in
        let h' = Created-HasRoot s s' b slot i name h n.fits ne c in
        let listed : first_unused (entries_from (content rel s b) 0 8) 0 ≡ some slot =
          rw (entries_lem (content rel s b) (h.ready.blocks b).size) at free in
        let hit =
          Created-any_hit s s' b slot i name n.fits
            (omega (arith, first_unused-lt (content rel s b) 8 0 slot listed)) c in
        let (s'', again, same) = create_file-Refusal s' b name h' (exists n hit) in
        (s', s'', e, h', again, same)
