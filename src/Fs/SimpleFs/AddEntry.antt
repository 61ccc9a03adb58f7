-- ===== src/Fs/SimpleFs/AddEntry.antt =====
-- src/fs/simple_fs.rs: what `add_root_dir_entry` does on a device that does not fail.
use native.Mathlib.Decide.{dec_lt}
use blog_os.Base.{
  ℕ, zero, suc, ◌+◌, ◌≤◌, ◌<◌, ◌≡◌, ◌≢◌, refl, ap, ◌∙◌, List, Option, Option-cases, none, some,
  some-injective, ok, err, done, length, arith, false, true, inl, inr, ◌==◌, ltb,
}
use blog_os.Fs.Zerocopy.{Zerocopy}
use blog_os.Fs.BlockDev.{BlockDevice, no_space, name_too_long}
use blog_os.Fs.Layout.Dirents.{entry_at}
use blog_os.Fs.SimpleFs.State.{Sfs}
use blog_os.Fs.SimpleFs.Dirs.{new_entry, find_free_dir_slot, add_root_dir_entry}
use blog_os.Fs.SimpleFs.Reliable.{IsReliable, content, size, Same, write_block_lem}
use blog_os.Fs.SimpleFs.Entries.{
  FirstFree, none_free, free_here, taken, find_free_dir_slot_lem, write_dirent_into_block_lem,
}
use blog_os.Fs.SimpleFs.Root.{HasRoot}
use blog_os.Fs.SimpleFs.Create.{open_lem}

FirstFree-lt :
    ⦃z : Zerocopy⦄ (block : List ℕ) (n i k : ℕ) (o : Option ℕ)
    → FirstFree block n i o
    → o ≡ some k
    → k < i + n
FirstFree-lt block zero i k none none_free e = absurd cc
FirstFree-lt block zero i k (some _) rest e = elim rest [ ]
FirstFree-lt block (suc n) i k (some _) (free_here h) e =
    let at : i ≡ k = some-injective _ _ e in omega (arith, at)
FirstFree-lt block (suc n) i k o (taken u ne rest) e =
    let low = FirstFree-lt block n (i + 1) k o rest e in omega (arith, low)

module _ {D : Type 0} ⦃dev : BlockDevice D⦄ ⦃z : Zerocopy⦄ (rel : IsReliable dev) where
  -- `s'` is `s` with an entry in a slot of the block `b`.
  pub record Added (s : Sfs D) (b slot inode : ℕ) (name : List ℕ) (s' : Sfs D) : Type 0 where
    pub entry : entry_at (content rel s' b) slot ≡ new_entry inode name
    pub other_entries :
        (j : ℕ) → j < 8 → j ≢ slot → entry_at (content rel s' b) j ≡ entry_at (content rel s b) j
    pub other_blocks : (id : ℕ) → id ≢ b → content rel s' id ≡ content rel s id
    pub size_same : size rel s' ≡ size rel s
    pub superblock_same : s'.superblock ≡ s.superblock

  -- The three ways in which a call ends.
  pub data AddOutcome (s : Sfs D) (b inode : ℕ) (name : List ℕ) : Type 0 where
    too_long :
        52 < length name
        → add_root_dir_entry inode name s ≡ done (err name_too_long, s)
        → AddOutcome s b inode name
    full :
        (s' : Sfs D)
        → length name ≤ 52
        → FirstFree (content rel s b) 8 0 none
        → add_root_dir_entry inode name s ≡ done (err no_space, s')
        → Same rel s s'
        → AddOutcome s b inode name
    added :
        (slot : ℕ) (s' : Sfs D)
        → length name ≤ 52
        → FirstFree (content rel s b) 8 0 (some slot)
        → add_root_dir_entry inode name s ≡ done (ok tt, s')
        → Added s b slot inode name s'
        → AddOutcome s b inode name

  short_lem :
      (s : Sfs D) (b inode : ℕ) (name : List ℕ)
      → HasRoot rel s b
      → length name ≤ 52
      → AddOutcome s b inode name
  unfolding add_root_dir_entry
  short_lem s b inode name h fits =
      let (s₁, s₂, read, got, scan, same) = open_lem rel s b name h in
      let short : ltb 52 (length name) ≡ false = ground (arith, fits) in
      let nonzero : (b == 0) ≡ false = ground (arith, h.behind_table) in
      let block : List ℕ = content rel s b in
      let len : length block ≡ 512 = (h.ready.blocks b).size in
      let free = find_free_dir_slot_lem block len in
      elim (Option-cases (find_free_dir_slot block)) [
        | inl none_left ↦
            full s₂ fits (rw none_left at free)
              (rw (add_root_dir_entry, short, read, h.pointer, nonzero, got, none_left) refl) same
        | inr (slot, found) ↦
            let low : slot < 8 =
              FirstFree-lt block 8 0 slot (find_free_dir_slot block) free found in
            elim (write_dirent_into_block_lem block slot inode name len low) [
              | inr (long, e) ↦ absurd (omega (arith, fits, long))
              | inl (_, (block', put, len', here, other)) ↦
                  let (s₃, saved, up) =
                    write_block_lem rel s₂ b block' len'
                      (omega (arith, same.size_same, h.on_disk)) in
                  added slot s₃ fits (rw found at free)
                    (rw
                      (add_root_dir_entry, short, read, h.pointer, nonzero, got, found, put, saved)
                      refl)
                    (record {
                      entry = ap (λ c. entry_at c slot) up.content_here ∙ here;
                      other_entries =
                          λ j lt ne. ap (λ c. entry_at c j) up.content_here ∙ other j lt ne;
                      other_blocks = λ id ne. up.content_other id ne ∙ same.content_same id;
                      size_same = up.size_same ∙ same.size_same;
                      superblock_same = up.superblock_same ∙ same.superblock_same;
                    })
            ]
      ]

  -- On a file system with a root directory, add_root_dir_entry refuses a name of more than 52 bytes,
  -- and fails with NoSpace where all eight entries are in use and have an inode other than 0; the disk
  -- stays as it was. Otherwise it puts the entry into the first slot that is not in use or has the
  -- inode 0, and changes nothing else.
  pub add_root_dir_entry_lem :
      (s : Sfs D) (b inode : ℕ) (name : List ℕ) → HasRoot rel s b → AddOutcome s b inode name
  unfolding add_root_dir_entry
  add_root_dir_entry_lem s b inode name h = elim (dec_lt 52 (length name)) [
    | yes long ↦
        let test : ltb 52 (length name) ≡ true = ground (arith, long) in
        too_long long (rw (add_root_dir_entry, test) refl)
    | no short ↦ short_lem s b inode name h (omega arith)
  ]
