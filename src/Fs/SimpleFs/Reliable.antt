-- ===== src/Fs/SimpleFs/Reliable.antt =====
-- What `BlockDevice` documents of a device that does not fail, and the file system on one.
use blog_os.Base.{
  ℕ, ◌^◌, ◌<◌, ◌≡◌, ◌≢◌, refl, ◌∙◌, List, ok, done, length, All, arith, replicate, length-replicate,
}
use native.Mathlib.Decide.{ℕ_discrete}
use blog_os.Base.Bytes.{IsByte}
use blog_os.Fs.BlockDev.{BlockDevice}
use blog_os.Fs.SimpleFs.State.{Sfs, zero_block, read_block, write_block}

-- A device whose blocks read back what was written last, for a block number below the capacity
-- and a buffer of one block.
pub record IsReliable {D : Type 0} (dev : BlockDevice D) : Type 0 where
  pub blocks : D → ℕ → List ℕ
  pub read_lem :
      (d : D) (id : ℕ) (buffer : List ℕ)
      → length buffer ≡ 512
      → id < dev.capacity d
      → (d' : D) × (dev.read_blocks d id buffer ≡ (ok tt, blocks d id, d'))
        × ((k : ℕ) → blocks d' k ≡ blocks d k)
        × (dev.capacity d' ≡ dev.capacity d)
  pub write_lem :
      (d : D) (id : ℕ) (buffer : List ℕ)
      → length buffer ≡ 512
      → id < dev.capacity d
      → (d' : D) × (dev.write_blocks d id buffer ≡ (ok tt, d'))
        × (blocks d' id ≡ buffer)
        × ((k : ℕ) → k ≢ id → blocks d' k ≡ blocks d k)
        × (dev.capacity d' ≡ dev.capacity d)

-- A block holds 512 bytes.
pub record IsBlock (bs : List ℕ) : Type 0 where
  pub size : length bs ≡ 512
  pub bytes : All IsByte bs

pub All-zeros : (n : ℕ) → All IsByte (replicate n 0)
All-zeros ℕ.zero = tt
All-zeros (ℕ.suc n) = (omega arith, All-zeros n)

pub zero_block-IsBlock : IsBlock zero_block
zero_block-IsBlock = record { size = length-replicate {A = ℕ} 512 0; bytes = All-zeros 512 }

module _ {D : Type 0} ⦃dev : BlockDevice D⦄ (rel : IsReliable dev) where
  abbrev pub content : Sfs D → ℕ → List ℕ
  content s id = rel.blocks s.device id

  abbrev pub size : Sfs D → ℕ
  size s = dev.capacity s.device

  -- Every block of the disk holds bytes, and there are at most 2 ^ 64 blocks.
  pub record IsReady (s : Sfs D) : Type 0 where
    pub blocks : (id : ℕ) → IsBlock (content s id)
    pub room : size s < 2 ^ 64

  -- `s'` has the disk and the superblock of `s`.
  pub record Same (s s' : Sfs D) : Type 0 where
    pub content_same : (id : ℕ) → content s' id ≡ content s id
    pub size_same : size s' ≡ size s
    pub superblock_same : s'.superblock ≡ s.superblock

  -- `s'` differs from `s` in one block.
  pub record Updated (s : Sfs D) (id : ℕ) (buffer : List ℕ) (s' : Sfs D) : Type 0 where
    pub content_here : content s' id ≡ buffer
    pub content_other : (k : ℕ) → k ≢ id → content s' k ≡ content s k
    pub size_same : size s' ≡ size s
    pub superblock_same : s'.superblock ≡ s.superblock

  pub read_block_lem :
      (s : Sfs D) (id : ℕ)
      → id < size s
      → (s' : Sfs D) × (read_block id s ≡ done (ok (content s id), s')) × Same s s'
  unfolding read_block
  read_block_lem s id h =
      let (d, e, same, cap) =
        rel.read_lem s.device id zero_block (length-replicate {A = ℕ} 512 0) h in
      (
        record s { device = d },
        ground (arith, e),
        record { content_same = same; size_same = cap; superblock_same = refl },
      )

  pub write_block_lem :
      (s : Sfs D) (id : ℕ) (buffer : List ℕ)
      → length buffer ≡ 512
      → id < size s
      → (s' : Sfs D) × (write_block id buffer s ≡ done (ok tt, s')) × Updated s id buffer s'
  unfolding write_block
  write_block_lem s id buffer len h =
      let (d, e, here, other, cap) = rel.write_lem s.device id buffer len h in
      (
        record s { device = d },
        rw e,
        record {
          content_here = here;
          content_other = other;
          size_same = cap;
          superblock_same = refl;
        },
      )

  pub Same-IsReady : (s s' : Sfs D) → Same s s' → IsReady s → IsReady s'
  Same-IsReady s s' same h = record {
    blocks = λ id. rw (same.content_same id) (h.blocks id);
    room = rw same.size_same h.room;
  }

  pub Updated-IsReady :
      (s s' : Sfs D) (id : ℕ) (buffer : List ℕ)
      → Updated s id buffer s'
      → IsBlock buffer
      → IsReady s
      → IsReady s'
  Updated-IsReady s s' id buffer u b h = record {
    blocks = λ k. elim (ℕ_discrete k id) [
      | yes e ↦ rw (e, u.content_here) b
      | no ne ↦ rw (u.content_other k ne) (h.blocks k)
    ];
    room = rw u.size_same h.room;
  }

  -- A read behind which a block is written: the update is one of the first state.
  pub Same-Updated :
      (s s' s'' : Sfs D) (id : ℕ) (buffer : List ℕ)
      → Same s s'
      → Updated s' id buffer s''
      → Updated s id buffer s''
  Same-Updated s s' s'' id buffer same u = record {
    content_here = u.content_here;
    content_other = λ k ne. u.content_other k ne ∙ same.content_same k;
    size_same = u.size_same ∙ same.size_same;
    superblock_same = u.superblock_same ∙ same.superblock_same;
  }
