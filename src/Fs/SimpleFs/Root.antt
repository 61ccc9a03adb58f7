-- ===== src/Fs/SimpleFs/Root.antt =====
-- src/fs/simple_fs.rs: a file system with a root directory, and what one update of the disk leaves
-- of it.
use blog_os.Base.{
  ℕ, zero, suc, ◌+◌, ◌/◌, ◌≤◌, ◌<◌, ◌≡◌, ◌≢◌, ap, ◌∙◌, List, Result, ok, done, All, arith, get_or,
}
use blog_os.Fs.Zerocopy.{Zerocopy}
use blog_os.Fs.BlockDev.{BlockDevice, FileSystemError}
use blog_os.Fs.Layout.{FileType}
use blog_os.Fs.Layout.Inodes.{Inode, IsInRange}
use blog_os.Fs.Layout.Dirents.{entry_at, entries_from}
use blog_os.Fs.SimpleFs.State.{Sfs}
use blog_os.Fs.SimpleFs.Inodes.{write_inode}
use blog_os.Fs.SimpleFs.Reliable.{IsReliable, content, size, IsReady, Same, Same-IsReady}
use blog_os.Fs.SimpleFs.Table.{
  block_of, inode_bytes, decode, write_inode_lem, write_inode-IsReady, bytes_here, bytes_other,
  decode-as_bytes,
}
use blog_os.Fs.SimpleFs.Scan.{IsReadable}

module _ {D : Type 0} ⦃dev : BlockDevice D⦄ ⦃z : Zerocopy⦄ (rel : IsReliable dev) where
  -- What a read of the inode gives.
  abbrev pub inode_at : Sfs D → ℕ → Result FileSystemError Inode
  inode_at s k = decode rel (inode_bytes rel (content rel s (block_of rel s k)) k)

  -- A read goes by the bytes of the inode's block.
  pub inode_at-same :
      (s s' : Sfs D) (j : ℕ)
      → s'.superblock ≡ s.superblock
      → content rel s' (block_of rel s j) ≡ content rel s (block_of rel s j)
      → inode_at s' j ≡ inode_at s j
  inode_at-same s s' j sb same =
      ap (λ q. decode rel (inode_bytes rel (content rel s' (q.inode_table_start_block + j / 4)) j))
        sb
      ∙ ap (λ c. decode rel (inode_bytes rel c j)) same

  -- The inode 0 is a directory whose first block is `b`, which is on the disk, is none of the
  -- blocks of the bitmaps and the root's inode, and holds names that fit their fields.
  pub record HasRoot (s : Sfs D) (b : ℕ) : Type 0 where
    pub ready : IsReady rel s
    pub root : Inode
    pub root_there : inode_at s 0 ≡ ok root
    pub directory : root.mode ≡ FileType.directory
    pub pointer : get_or root.direct_pointers 0 0 ≡ b
    pub table : 3 ≤ s.superblock.inode_table_start_block
    pub bitmap : s.superblock.inode_bitmap_block ≡ 1
    pub behind_table : s.superblock.inode_table_start_block < b
    pub on_disk : b < size rel s
    pub readable : (j : ℕ) → j < 8 → IsReadable (entry_at (content rel s b) j)

  -- It goes by the disk.
  pub Same-HasRoot : (s s' : Sfs D) (b : ℕ) → Same rel s s' → HasRoot s b → HasRoot s' b
  Same-HasRoot s s' b same h = record {
    ready = Same-IsReady rel s s' same h.ready;
    root = h.root;
    root_there = inode_at-same s s' 0 same.superblock_same (same.content_same _) ∙ h.root_there;
    directory = h.directory;
    pointer = h.pointer;
    table = rw same.superblock_same h.table;
    bitmap = ap (λ q. q.inode_bitmap_block) same.superblock_same ∙ h.bitmap;
    behind_table = rw same.superblock_same h.behind_table;
    on_disk = rw same.size_same h.on_disk;
    readable = λ j lt. rw (same.content_same b) (h.readable j lt);
  }

  -- `s'` is `s` with the inode `i` written at `k`.
  pub record Written (s : Sfs D) (i : Inode) (k : ℕ) (s' : Sfs D) : Type 0 where
    pub here : inode_at s' k ≡ ok i
    pub other : (j : ℕ) → j ≢ k → inode_at s' j ≡ inode_at s j
    pub other_blocks : (id : ℕ) → id ≢ block_of rel s k → content rel s' id ≡ content rel s id
    pub size_same : size rel s' ≡ size rel s
    pub superblock_same : s'.superblock ≡ s.superblock
    pub ready : IsReady rel s'

  pub write_inode-Written :
      (s : Sfs D) (i : Inode) (k : ℕ)
      → IsReady rel s
      → IsInRange i
      → block_of rel s k < size rel s
      → (s' : Sfs D) × (write_inode i k s ≡ done (ok tt, s')) × Written s i k s'
  write_inode-Written s i k h r lt =
      let (s', wrote, up) = write_inode_lem rel s i k h r.ten_pointers lt in
      (
        s',
        wrote,
        record {
          here = ap (decode rel) (bytes_here rel s h i r k lt s' up) ∙ decode-as_bytes rel i r;
          other = λ j ne. ap (decode rel) (bytes_other rel s h i r k lt s' up j ne);
          other_blocks = up.content_other;
          size_same = up.size_same;
          superblock_same = up.superblock_same;
          ready = write_inode-IsReady rel s h i r k lt s' up;
        },
      )

pub All-entries_from :
    ⦃z : Zerocopy⦄ (block : List ℕ) (n i : ℕ)
    → i + n ≤ 8
    → ((j : ℕ) → j < 8 → IsReadable (entry_at block j))
    → All IsReadable (entries_from block i n)
All-entries_from block zero i h r = tt
All-entries_from block (suc n) i h r =
    (r i (omega arith), All-entries_from block n (i + 1) (omega arith) r)
