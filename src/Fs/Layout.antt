-- ===== src/Fs/Layout.antt =====
-- src/fs/layout.rs: the constants and the file types. The children model the on-disk structures.
pub mod Fields
pub mod Superblock
pub mod Inodes
pub mod Dirents
pub mod Bitmaps
pub mod Represent
use blog_os.Base.{ℕ, ◌/◌, ◌≡◌, refl, ◌==◌, if◌then◌else◌, Result, ok, err, Bool, true, false}

abbrev pub block_size : ℕ
block_size = 512

abbrev pub inode_size : ℕ
inode_size = 128

abbrev pub inodes_per_block : ℕ
inodes_per_block = block_size / inode_size

abbrev pub superblock_block : ℕ
superblock_block = 0

abbrev pub inode_bitmap_block : ℕ
inode_bitmap_block = 1

abbrev pub data_bitmap_block : ℕ
data_bitmap_block = 2

abbrev pub inode_table_start_block : ℕ
inode_table_start_block = 3

abbrev pub dir_entry_size : ℕ
dir_entry_size = 64

abbrev pub dir_name_max : ℕ
dir_name_max = 52

abbrev pub dir_entries_per_block : ℕ
dir_entries_per_block = block_size / dir_entry_size

abbrev pub dirent_used : ℕ
dirent_used = 1

pub data FileType : Type 0 where
  unknown file directory : FileType

-- `TryFrom<u16> for FileType`
unfoldable pub file_type_try_from : ℕ → Result (Unit {0}) FileType
file_type_try_from value =
    if value == 0
    then ok FileType.unknown
    else if value == 1
    then ok FileType.file
    else if value == 2
    then ok FileType.directory
    else err tt

-- `From<FileType> for u16`
unfoldable pub u16_from : FileType → ℕ
u16_from FileType.unknown = 0
u16_from FileType.file = 1
u16_from FileType.directory = 2

pub try_from-u16_from : (t : FileType) → file_type_try_from (u16_from t) ≡ ok t
unfolding file_type_try_from u16_from
try_from-u16_from FileType.unknown = refl
try_from-u16_from FileType.file = refl
try_from-u16_from FileType.directory = refl
