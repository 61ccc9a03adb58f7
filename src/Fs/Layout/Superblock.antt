-- ===== src/Fs/Layout/Superblock.antt =====
-- src/fs/layout.rs: `SuperBlock` and its on-disk form `DiskSuperBlock`.
use blog_os.Base.{
  All, ℕ, ◌^◌, ◌<◌, ◌≡◌, ap, List, [], ◌∷◌, Option, none, some, arith, length, get_or, ◌==◌,
  if◌then◌else◌, Result, ok,
}
use blog_os.Base.Bytes.{IsByte}
use blog_os.Fs.Zerocopy.{Zerocopy}
use blog_os.Fs.Layout.Fields.{
  concat, split, Fit, split-concat, concat-split, length-concat, All-concat,
}

pub record SuperBlock : Type 0 where
  pub total_blocks : ℕ
  pub inode_bitmap_block : ℕ
  pub data_bitmap_block : ℕ
  pub inode_table_start_block : ℕ
  pub inode_count : ℕ
  pub data_block_start : ℕ
  pub data_block_count : ℕ
  pub magic_number : ℕ

-- The fields are the bytes of the little-endian words.
pub record DiskSuperBlock : Type 0 where
  pub total_blocks : List ℕ
  pub inode_bitmap_block : List ℕ
  pub data_bitmap_block : List ℕ
  pub inode_table_start_block : List ℕ
  pub inode_count : List ℕ
  pub data_block_start : List ℕ
  pub data_block_count : List ℕ
  pub magic_number : List ℕ
  pub pad0 : List ℕ

-- `size_of::<DiskSuperBlock>()`, which the source asserts to be 64
abbrev pub widths : List ℕ
widths = 8 ∷ 8 ∷ 8 ∷ 8 ∷ 8 ∷ 8 ∷ 8 ∷ 4 ∷ 4 ∷ []

abbrev pub disk_super_block_size : ℕ
disk_super_block_size = 64

abbrev pub fields : DiskSuperBlock → List (List ℕ)
fields d =
    d.total_blocks ∷ d.inode_bitmap_block ∷ d.data_bitmap_block ∷ d.inode_table_start_block
    ∷ d.inode_count ∷ d.data_block_start ∷ d.data_block_count ∷ d.magic_number ∷ d.pad0 ∷ []

abbrev pub of_fields : List (List ℕ) → DiskSuperBlock
of_fields ps = record {
  total_blocks = get_or ps 0 [];
  inode_bitmap_block = get_or ps 1 [];
  data_bitmap_block = get_or ps 2 [];
  inode_table_start_block = get_or ps 3 [];
  inode_count = get_or ps 4 [];
  data_block_start = get_or ps 5 [];
  data_block_count = get_or ps 6 [];
  magic_number = get_or ps 7 [];
  pad0 = get_or ps 8 [];
}

-- `IntoBytes::as_bytes`
unfoldable pub as_bytes : DiskSuperBlock → List ℕ
as_bytes d = concat (fields d)

-- `FromBytes::ref_from_bytes`: an error for a slice of another size
unfoldable pub ref_from_bytes : List ℕ → Option DiskSuperBlock
ref_from_bytes bs =
    if length bs == disk_super_block_size then some (of_fields (split widths bs)) else none

module _ ⦃z : Zerocopy⦄ where
  -- `From<SuperBlock> for DiskSuperBlock`
  unfoldable pub from_super_block : SuperBlock → DiskSuperBlock
  from_super_block sb = record {
    total_blocks = z.new 8 sb.total_blocks;
    inode_bitmap_block = z.new 8 sb.inode_bitmap_block;
    data_bitmap_block = z.new 8 sb.data_bitmap_block;
    inode_table_start_block = z.new 8 sb.inode_table_start_block;
    inode_count = z.new 8 sb.inode_count;
    data_block_start = z.new 8 sb.data_block_start;
    data_block_count = z.new 8 sb.data_block_count;
    magic_number = z.new 4 sb.magic_number;
    pad0 = z.new 4 0;
  }

  -- `TryFrom<DiskSuperBlock> for SuperBlock`
  unfoldable pub super_block_try_from : DiskSuperBlock → Result (Unit {0}) SuperBlock
  super_block_try_from d = ok (record {
    total_blocks = z.get 8 d.total_blocks;
    inode_bitmap_block = z.get 8 d.inode_bitmap_block;
    data_bitmap_block = z.get 8 d.data_bitmap_block;
    inode_table_start_block = z.get 8 d.inode_table_start_block;
    inode_count = z.get 8 d.inode_count;
    data_block_start = z.get 8 d.data_block_start;
    data_block_count = z.get 8 d.data_block_count;
    magic_number = z.get 4 d.magic_number;
  })

-- The values fit the fields' machine types.
pub record IsInRange (sb : SuperBlock) : Type 0 where
  pub total_blocks : sb.total_blocks < 2 ^ 64
  pub inode_bitmap_block : sb.inode_bitmap_block < 2 ^ 64
  pub data_bitmap_block : sb.data_bitmap_block < 2 ^ 64
  pub inode_table_start_block : sb.inode_table_start_block < 2 ^ 64
  pub inode_count : sb.inode_count < 2 ^ 64
  pub data_block_start : sb.data_block_start < 2 ^ 64
  pub data_block_count : sb.data_block_count < 2 ^ 64
  pub magic_number : sb.magic_number < 2 ^ 32

module _ ⦃z : Zerocopy⦄ where
  from_super_block-Fit : (sb : SuperBlock) → Fit widths (fields (from_super_block sb))
  unfolding from_super_block
  from_super_block-Fit sb = omega (
    arith,
    z.length-new 8 sb.total_blocks,
    z.length-new 8 sb.inode_bitmap_block,
    z.length-new 8 sb.data_bitmap_block,
    z.length-new 8 sb.inode_table_start_block,
    z.length-new 8 sb.inode_count,
    z.length-new 8 sb.data_block_start,
    z.length-new 8 sb.data_block_count,
    z.length-new 4 sb.magic_number,
    z.length-new 4 0,
  )

  pub length-as_bytes : (sb : SuperBlock) → length (as_bytes (from_super_block sb)) ≡ 64
  unfolding as_bytes
  length-as_bytes sb = length-concat widths (fields (from_super_block sb)) (from_super_block-Fit sb)

  split-as_bytes :
      (sb : SuperBlock)
      → split widths (as_bytes (from_super_block sb)) ≡ fields (from_super_block sb)
  unfolding as_bytes
  split-as_bytes sb = split-concat widths (fields (from_super_block sb)) (from_super_block-Fit sb)

  pub ref_from_bytes-as_bytes :
      (sb : SuperBlock)
      → ref_from_bytes (as_bytes (from_super_block sb)) ≡ some (from_super_block sb)
  unfolding ref_from_bytes
  ref_from_bytes-as_bytes sb =
      rw (length-as_bytes sb) (ap (λ ps. some (of_fields ps)) (split-as_bytes sb))

  -- A superblock whose values fit their fields is the conversion of its on-disk form.
  pub try_from-from_super_block :
      (sb : SuperBlock) → IsInRange sb → super_block_try_from (from_super_block sb) ≡ ok sb
  unfolding super_block_try_from from_super_block
  try_from-from_super_block sb r = rw (
    z.get-new 8 sb.total_blocks r.total_blocks,
    z.get-new 8 sb.inode_bitmap_block r.inode_bitmap_block,
    z.get-new 8 sb.data_bitmap_block r.data_bitmap_block,
    z.get-new 8 sb.inode_table_start_block r.inode_table_start_block,
    z.get-new 8 sb.inode_count r.inode_count,
    z.get-new 8 sb.data_block_start r.data_block_start,
    z.get-new 8 sb.data_block_count r.data_block_count,
    z.get-new 4 sb.magic_number r.magic_number,
  )

module _ ⦃z : Zerocopy⦄ where
  pub as_bytes-IsByte : (sb : SuperBlock) → All IsByte (as_bytes (from_super_block sb))
  unfolding as_bytes from_super_block
  as_bytes-IsByte sb = All-concat IsByte (fields (from_super_block sb)) (
    z.new_bytes 8 sb.total_blocks,
    (
      z.new_bytes 8 sb.inode_bitmap_block,
      (
        z.new_bytes 8 sb.data_bitmap_block,
        (
          z.new_bytes 8 sb.inode_table_start_block,
          (
            z.new_bytes 8 sb.inode_count,
            (
              z.new_bytes 8 sb.data_block_start,
              (
                z.new_bytes 8 sb.data_block_count,
                (z.new_bytes 4 sb.magic_number, (z.new_bytes 4 0, tt)),
              ),
            ),
          ),
        ),
      ),
    ),
  )

-- Every 64 bytes are a `DiskSuperBlock`, and writing it back gives those bytes.
pub as_bytes-ref_from_bytes :
    (bs : List ℕ)
    → length bs ≡ disk_super_block_size
    → (d : DiskSuperBlock) × (ref_from_bytes bs ≡ some d) × (as_bytes d ≡ bs)
unfolding ref_from_bytes as_bytes
as_bytes-ref_from_bytes bs h = (of_fields (split widths bs), rw h, concat-split widths bs h)
