-- ===== src/Tests/Layouts.antt =====
-- The theorems of src/fs/layout.rs on small data.
use blog_os.Base.{◌<◌, ◌≡◌, arith, [], ◌∷◌, All, replicate}
use blog_os.Tests.Fixtures.{little_endian}
use blog_os.Fs.Layout.{FileType}
use blog_os.Fs.Layout.Superblock.{SuperBlock}
use blog_os.Fs.Layout.Inodes as Inodes
use blog_os.Fs.Layout.Inodes.{Inode, from_inode, inode_try_from, inode_try_from-from_inode}
use blog_os.Fs.Layout.Bitmaps.{
  Bitmap, bits, view, find_and_set_first_free, find_and_set_first_free_refines,
}
use blog_os.Fs.Layout.Bitmaps.Abs as Abs

abbrev pub sample_super_block : SuperBlock
sample_super_block = record {
  total_blocks = 40;
  inode_bitmap_block = 1;
  data_bitmap_block = 2;
  inode_table_start_block = 3;
  inode_count = 16;
  data_block_start = 7;
  data_block_count = 33;
  magic_number = 0xdead_beef;
}

abbrev pub sample_inode : Inode
sample_inode = record {
  mode = FileType.file;
  user_id = 1;
  group_id = 2;
  link_count = 1;
  size_in_bytes = 700;
  last_access_time = 5;
  last_modification_time = 6;
  creation_time = 7;
  direct_pointers = 11 ∷ 12 ∷ replicate 8 0;
  indirect_pointer = 0;
}

pub sample_inode-IsInRange : Inodes.IsInRange sample_inode
sample_inode-IsInRange = omega arith

-- Bits 0 to 8 are set.
abbrev map : Bitmap
map = 0xff ∷ 0x01 ∷ []

map_bytes : All (λ b. b < 256) map
map_bytes = (omega arith, (omega arith, tt))

find_and_set_first_free_refines_example :
    view (find_and_set_first_free map) ≡ Abs.find_and_set_first_free (bits map)
find_and_set_first_free_refines_example = find_and_set_first_free_refines map map_bytes
