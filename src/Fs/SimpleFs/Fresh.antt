-- ===== src/Fs/SimpleFs/Fresh.antt =====
-- src/fs/simple_fs.rs: the bytes of what `create_file_in_root` writes.
use blog_os.Base.{
  length-append, length-replicate, ℕ, zero, suc, ◌+◌, ◌-◌, ◌*◌, ◌%◌, ◌^◌, ◌≤◌, ◌<◌, ◌≡◌, refl, sym,
  subst, ◌∙◌, List, some, ok, done, done-injective, length, All, All-append, arith, replicate,
  Bool-cases, inl, inr, leb, ltb, true, false, Result,
}
use blog_os.Base.Bytes.{IsByte}
use blog_os.Base.Slices.{splice, All-splice}
use blog_os.Fs.Zerocopy.{Zerocopy}
use blog_os.Fs.BlockDev.{FileSystemError}
use blog_os.Fs.Layout.{FileType, block_size}
use blog_os.Fs.Layout.Fields.{All-concat}
use blog_os.Fs.Layout.Inodes.{IsInRange}
use blog_os.Fs.Layout.Dirents.{is_used, entry_at, entries_from, as_bytes, fields}
use blog_os.Fs.SimpleFs.Dirs.{fresh_inode, new_entry, write_dirent_into_block}
use blog_os.Fs.SimpleFs.Entries.{length-as_bytes}
use blog_os.Fs.SimpleFs.Scan.{first_unused, IsReadable}

pub fresh_file-IsInRange : IsInRange (fresh_inode FileType.file 1 (replicate 10 0))
fresh_file-IsInRange = omega arith

pub first_unused-lt :
    ⦃z : Zerocopy⦄ (block : List ℕ) (n i slot : ℕ)
    → first_unused (entries_from block i n) i ≡ some slot
    → slot < i + n
first_unused-lt block zero i slot e = cc
first_unused-lt block (suc n) i slot e = elim (Bool-cases (is_used (entry_at block i))) [
  | inl used ↦
      let lt = first_unused-lt block n (i + 1) slot (ground (arith, e, used)) in omega (arith, lt)
  | inr free ↦ ground (arith, e, free)
]

All-replicate : (n b : ℕ) → b < 256 → All IsByte (replicate n b)
All-replicate zero b h = tt
All-replicate (suc n) b h = (h, All-replicate n b h)

module _ ⦃z : Zerocopy⦄ where
  pub new_entry-IsReadable :
      (inode : ℕ) (name : List ℕ) → length name ≤ 52 → IsReadable (new_entry inode name)
  unfolding new_entry
  new_entry-IsReadable inode name h = omega (
    arith,
    z.get-new 2 (length name % 2 ^ 16) (omega arith),
    length-append name (replicate (52 - length name) 8),
    length-replicate {A = ℕ} (52 - length name) 8,
  )

  as_bytes-IsByte :
      (inode : ℕ) (name : List ℕ) → All IsByte name → All IsByte (as_bytes (new_entry inode name))
  unfolding as_bytes new_entry
  as_bytes-IsByte inode name h = All-concat IsByte (fields (new_entry inode name)) (
    z.new_bytes 8 inode,
    (
      z.new_bytes 2 (length name % 2 ^ 16),
      (
        z.new_bytes 2 1,
        (All-append IsByte name _ h (All-replicate (52 - length name) 8 (omega arith)), tt),
      ),
    ),
  )

  -- A block of bytes with a new entry in it is a block of bytes.
  pub write_dirent_into_block-IsByte :
      (block : List ℕ) (slot inode : ℕ) (name : List ℕ) {block' : List ℕ}
      → length block ≡ block_size
      → slot < 8
      → length name ≤ 52
      → All IsByte block
      → All IsByte name
      → write_dirent_into_block block slot inode name ≡ done (ok block')
      → All IsByte block'
  unfolding write_dirent_into_block
  write_dirent_into_block-IsByte block slot inode name {block'} len lt short bytes letters e =
      let new : List ℕ = as_bytes (new_entry inode name) in
      let new_len : length new ≡ 64 = length-as_bytes inode name short in
      let fits : leb (slot * 64 + length new) (length block) ≡ true = ground arith in
      let small : ltb 52 (length name) ≡ false = ground arith in
      let ran : write_dirent_into_block block slot inode name
          ≡ done (ok (splice block (slot * 64) new)) =
        rw (write_dirent_into_block, small, fits) refl in
      let same : splice block (slot * 64) new ≡ block' =
        ok-injective _ _ (done-injective _ _ (sym ran ∙ e)) in
      subst (All IsByte) same
        (All-splice IsByte block (slot * 64) new bytes (as_bytes-IsByte inode name letters))
    where
      ok-injective :
          (x y : List ℕ) → ◌≡◌ {A = Result FileSystemError (List ℕ)} (ok x) (ok y) → x ≡ y
      ok-injective x y p = cc
