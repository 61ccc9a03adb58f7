-- ===== src/Fs/SimpleFs/Table.antt =====
-- `SFS::read_inode` and `SFS::write_inode` on a device that does not fail.
use native.Mathlib.Decide.{ℕ_discrete, dec_lt}
use blog_os.Base.{
  ℕ, ◌+◌, ◌/◌, ◌%◌, ◌≤◌, ◌<◌, ◌≡◌, ◌≢◌, refl, ap, sym, ◌∙◌, true, List, some, some-injective,
  Result, ok, err, done, length, arith, take, drop, leb, length-take, length-drop, ◌⊎◌, inl, inr,
}
use blog_os.Base.Bytes.{IsByte}
use blog_os.Base.Words.{add_usize-done}
use blog_os.Base.Slices.{splice, length-splice, splice_self, splice_other, All-splice}
use blog_os.Fs.Zerocopy.{Zerocopy}
use blog_os.Fs.BlockDev.{BlockDevice, FileSystemError, to_block_error}
use blog_os.Fs.Layout.Fields.{split}
use blog_os.Fs.Layout.Inodes.{
  Inode, widths, as_bytes, ref_from_bytes, of_fields, from_inode, inode_try_from, IsInRange,
  length-as_bytes, as_bytes-IsByte, ref_from_bytes-as_bytes, inode_try_from-from_inode,
}
use blog_os.Fs.SimpleFs.State.{Sfs, try}
use blog_os.Fs.SimpleFs.Inodes.{read_inode, write_inode, inode_offset}
use blog_os.Fs.SimpleFs.Reliable.{
  IsReliable, IsBlock, content, size, IsReady, Same, Updated, read_block_lem, write_block_lem,
  Updated-IsReady, Same-Updated,
}

try_lem : {D A : Type 0} (r : Result FileSystemError A) (s : Sfs D) → try r s ≡ done (r, s)
try_lem (ok a) s = refl
try_lem (err e) s = refl

module _ {D : Type 0} ⦃dev : BlockDevice D⦄ ⦃z : Zerocopy⦄ (rel : IsReliable dev) where
  -- The block and the bytes of an inode.
  abbrev pub block_of : Sfs D → ℕ → ℕ
  block_of s k = s.superblock.inode_table_start_block + k / 4

  abbrev pub inode_bytes : List ℕ → ℕ → List ℕ
  inode_bytes block k = take 128 (drop (inode_offset k) block)

  -- The result of a read, from the bytes of the inode.
  pub decode : List ℕ → Result FileSystemError Inode
  decode bytes = to_block_error (inode_try_from (of_fields (split widths bytes)))

  length-inode_bytes :
      (block : List ℕ) (k : ℕ) → length block ≡ 512 → length (inode_bytes block k) ≡ 128
  length-inode_bytes block k h =
      omega
        (arith, length-take 128 (drop (inode_offset k) block), length-drop (inode_offset k) block)

  ref_from_bytes-inode_bytes :
      (bytes : List ℕ)
      → length bytes ≡ 128
      → ref_from_bytes bytes ≡ some (of_fields (split widths bytes))
  unfolding ref_from_bytes
  ref_from_bytes-inode_bytes bytes h = rw h

  -- `read_inode` decodes the bytes of the inode, and changes nothing on the disk.
  pub read_inode_lem :
      (s : Sfs D) (k : ℕ)
      → IsReady rel s
      → block_of s k < size rel s
      → (s' : Sfs D) × (read_inode k s
          ≡ done (decode (inode_bytes (content rel s (block_of s k)) k), s'))
        × Same rel s s'
  unfolding read_inode decode
  read_inode_lem s k h lt =
      let block : List ℕ = content rel s (block_of s k) in
      let (s₁, read, same) = read_block_lem rel s (block_of s k) lt in
      let len : length block ≡ 512 = (h.blocks (block_of s k)).size in
      let fits : leb (inode_offset k + 128) (length block) ≡ true = ground arith in
      (
        s₁,
        rw (
          add_usize-done s.superblock.inode_table_start_block (k / 4) (omega (arith, h.room)),
          read,
          fits,
          ref_from_bytes-inode_bytes (inode_bytes block k) (length-inode_bytes block k len),
          try_lem,
        ),
        same,
      )

  -- `write_inode` writes the bytes of the inode at its place, and nothing else on the disk.
  pub write_inode_lem :
      (s : Sfs D) (i : Inode) (k : ℕ)
      → IsReady rel s
      → length i.direct_pointers ≡ 10
      → block_of s k < size rel s
      → (s' : Sfs D) × (write_inode i k s ≡ done (ok tt, s'))
        × Updated rel s
            (block_of s k)
            (splice (content rel s (block_of s k)) (inode_offset k) (as_bytes (from_inode i)))
            s'
  unfolding write_inode
  write_inode_lem s i k h ten lt =
      let id : ℕ = block_of s k in
      let block : List ℕ = content rel s id in
      let new : List ℕ = as_bytes (from_inode i) in
      let len : length block ≡ 512 = (h.blocks id).size in
      let new_len : length new ≡ 128 = length-as_bytes i ten in
      let fits : leb (inode_offset k + length new) (length block) ≡ true = ground arith in
      let (s₁, read, same) = read_block_lem rel s id lt in
      let (s₂, wrote, up) =
        write_block_lem rel s₁ id (splice block (inode_offset k) new)
          (length-splice block (inode_offset k) new (omega arith) ∙ len) (rw same.size_same lt) in
      (
        s₂,
        rw (
          add_usize-done s.superblock.inode_table_start_block (k / 4) (omega (arith, h.room)),
          read,
          fits,
          wrote,
        ),
        Same-Updated rel s s₁ s₂ id _ same up,
      )

  -- The bytes of an inode decode to it.
  pub decode-as_bytes : (i : Inode) → IsInRange i → decode (as_bytes (from_inode i)) ≡ ok i
  unfolding decode
  decode-as_bytes i r =
      let bytes : List ℕ = as_bytes (from_inode i) in
      let fields : of_fields (split widths bytes) ≡ from_inode i = some-injective _ _ (
        sym (ref_from_bytes-inode_bytes bytes (length-as_bytes i r.ten_pointers))
        ∙ ref_from_bytes-as_bytes i r.ten_pointers) in
      rw (fields, inode_try_from-from_inode i r)

  module _ (s : Sfs D) (h : IsReady rel s) (i : Inode) (r : IsInRange i) (k : ℕ)
      (lt : block_of s k < size rel s) where
    -- After `write_inode`, the disk is the old one but for the bytes of the inode.
    pub write_inode-IsReady :
        (s' : Sfs D)
        → Updated rel s
            (block_of s k)
            (splice (content rel s (block_of s k)) (inode_offset k) (as_bytes (from_inode i)))
            s'
        → IsReady rel s'
    write_inode-IsReady s' up =
        let b : IsBlock (content rel s (block_of s k)) = h.blocks (block_of s k) in
        let new_len : length (as_bytes (from_inode i)) ≡ 128 = length-as_bytes i r.ten_pointers in
        Updated-IsReady rel s s' (block_of s k) _ up
          (record {
            size =
                length-splice (content rel s (block_of s k)) (inode_offset k)
                  (as_bytes (from_inode i)) (omega (arith, b.size))
                ∙ b.size;
            bytes =
                All-splice IsByte (content rel s (block_of s k)) (inode_offset k)
                  (as_bytes (from_inode i)) b.bytes (as_bytes-IsByte i);
          })
          h

    block_same : (s' : Sfs D) (j : ℕ) → s'.superblock ≡ s.superblock → block_of s' j ≡ block_of s j
    block_same s' j e = ap (λ q. q.inode_table_start_block + j / 4) e

    module _ (s₁ : Sfs D)
        (up : Updated rel s
          (block_of s k)
          (splice (content rel s (block_of s k)) (inode_offset k) (as_bytes (from_inode i)))
          s₁) where
      pub bytes_here : inode_bytes (content rel s₁ (block_of s₁ k)) k ≡ as_bytes (from_inode i)
      bytes_here =
          let new : List ℕ = as_bytes (from_inode i) in
          let new_len : length new ≡ 128 = length-as_bytes i r.ten_pointers in
          let block : List ℕ = content rel s (block_of s k) in
          let len : length block ≡ 512 = (h.blocks (block_of s k)).size in
          ap (λ id. inode_bytes (content rel s₁ id) k) (block_same s₁ k up.superblock_same)
          ∙ ap (λ b. inode_bytes b k) up.content_here
          ∙ ap (λ n. take n (drop (inode_offset k) (splice block (inode_offset k) new)))
              (sym new_len)
          ∙ splice_self block (inode_offset k) new (omega arith)

      pub bytes_other :
          (j : ℕ)
          → j ≢ k
          → inode_bytes (content rel s₁ (block_of s₁ j)) j
            ≡ inode_bytes (content rel s (block_of s j)) j
      bytes_other j ne =
          ap (λ id. inode_bytes (content rel s₁ id) j) (block_same s₁ j up.superblock_same)
          ∙ elim (ℕ_discrete (block_of s j) (block_of s k)) [
            | no elsewhere ↦ ap (λ b. inode_bytes b j) (up.content_other (block_of s j) elsewhere)
            | yes e ↦
                ap (λ id. inode_bytes (content rel s₁ id) j) e
                ∙ ap (λ b. inode_bytes b j) up.content_here
                ∙ splice_other (content rel s (block_of s k)) (inode_offset k)
                    (as_bytes (from_inode i))
                    (omega
                      (arith, length-as_bytes i r.ten_pointers, (h.blocks (block_of s k)).size))
                    (inode_offset j) 128 (apart e)
                ∙ ap (λ id. inode_bytes (content rel s id) j) (sym e)
          ]
        where
          apart :
              block_of s j ≡ block_of s k
              → (inode_offset j + 128 ≤ inode_offset k)
                ⊎ (inode_offset k + length (as_bytes (from_inode i)) ≤ inode_offset j)
          apart e = elim (dec_lt (j % 4) (k % 4)) [
            | yes below ↦ inl (omega arith)
            | no above ↦ inr (omega (arith, length-as_bytes i r.ten_pointers))
          ]

    -- On a reliable device whose blocks hold 512 bytes, an inode that is in range and whose block is on
    -- the disk is read back after it was written, and every other inode is read as before.
    pub read_inode-write_inode :
        (s₁ : Sfs D) × (write_inode i k s ≡ done (ok tt, s₁))
        × IsReady rel s₁
        × ((s₂ : Sfs D) × (read_inode k s₁ ≡ done (ok i, s₂)))
        × ((j : ℕ)
            → j ≢ k
            → block_of s j < size rel s
            → (a : Result FileSystemError Inode) × (t : Sfs D) × (t₁ : Sfs D) × (read_inode j s
                ≡ done (a, t))
              × (read_inode j s₁ ≡ done (a, t₁)))
    read_inode-write_inode =
        let (s₁, wrote, up) = write_inode_lem s i k h r.ten_pointers lt in
        let ready : IsReady rel s₁ = write_inode-IsReady s₁ up in
        let at : (j : ℕ) → block_of s₁ j ≡ block_of s j = λ j. block_same s₁ j up.superblock_same in
        let (s₂, read, same) = read_inode_lem s₁ k ready (rw (at k, up.size_same) lt) in
        (
          s₁,
          wrote,
          ready,
          (s₂, read ∙ ap (λ a. done (a, s₂)) (ap decode (bytes_here s₁ up) ∙ decode-as_bytes i r)),
          λ j ne ltj.
              (let (t, before, same_t) = read_inode_lem s j h ltj in
                let (t₁, after, same_t₁) =
                  read_inode_lem s₁ j ready (rw (at j, up.size_same) ltj) in
                (
                  decode (inode_bytes (content rel s (block_of s j)) j),
                  t,
                  t₁,
                  before,
                  after ∙ ap (λ b. done (decode b, t₁)) (bytes_other s₁ up j ne),
                )),
        )
