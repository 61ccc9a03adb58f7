-- ===== src/Fs/SimpleFs/Files.antt =====
-- src/fs/simple_fs.rs: `SFS::create_file_in_root`, and the trait `FileSystem`.
use blog_os.Base.{
  ℕ, zero, suc, ◌+◌, List, [], ◌∷◌, Option, none, some, Result, ok, err, Exec, done, panic, ◌==◌,
  ltb, leb, if◌then◌else◌, not, ◌||◌, ◌&&◌, Bool, true, false, length, take, replicate, get_or,
}
use blog_os.Base as Exec
use blog_os.Fs.Zerocopy.{Zerocopy}
use blog_os.Fs.BlockDev.{BlockDevice, FileSystemError, name_too_long, corrupt_layout}
use blog_os.Fs.Layout.{FileType, dir_name_max}
use blog_os.Fs.Layout.Dirents.{DiskDirEntry, is_used, entries}
use blog_os.Fs.SimpleFs.State.{
  Sfs, Method, ◌>>=◌, ◌>>◌, pure, guard, run, try, ok_or, read_block, write_block,
}
use blog_os.Base.Slices.{slice}
use blog_os.Fs.SimpleFs.Volume.{allocate_inode}
use blog_os.Fs.SimpleFs.Inodes.{read_inode, write_inode}
use blog_os.Fs.SimpleFs.Dirs.{fresh_inode, put_entry}

-- Equality of byte slices.
unfoldable pub same_bytes : List ℕ → List ℕ → Bool
same_bytes [] [] = true
same_bytes [] (y ∷ ys) = false
same_bytes (x ∷ xs) [] = false
same_bytes (x ∷ xs) (y ∷ ys) = x == y && same_bytes xs ys

-- `mode != FileType::Directory`
abbrev pub is_directory : FileType → Bool
is_directory FileType.directory = true
is_directory FileType.file = false
is_directory FileType.unknown = false

-- `empty_slot_index`: the first free slot stays.
abbrev pub keep_first : Option ℕ → ℕ → Option ℕ
keep_first none i = some i
keep_first (some j) i = some j

module _ ⦃z : Zerocopy⦄ where
  -- `&entry.name[..entry_name_len] == name.as_bytes()`; a length past the field panics.
  unfoldable pub has_name : DiskDirEntry → List ℕ → Exec Bool
  has_name entry name =
      Exec.◌>>=◌ (slice entry.name 0 (z.get 2 entry.name_len)) λ bytes. done (same_bytes bytes name)

  -- The loop over the entries that checks for a collision and finds a slot.
  unfoldable pub scan_entries :
      List DiskDirEntry → ℕ → List ℕ → Option ℕ → Exec (Result FileSystemError (Option ℕ))
  scan_entries [] i name empty_slot_index = done (ok empty_slot_index)
  scan_entries (entry ∷ rest) i name empty_slot_index =
      let on_free = scan_entries rest (i + 1) name (keep_first empty_slot_index i) in
      let on_other = scan_entries rest (i + 1) name empty_slot_index in
      if is_used entry
      then (Exec.◌>>=◌ (has_name entry name)
          λ hit. if hit then done (err corrupt_layout) else on_other)
      else on_free

module _ {D : Type 0} ⦃dev : BlockDevice D⦄ ⦃z : Zerocopy⦄ where
  unfoldable pub create_file_in_root : List ℕ → Method D (ℕ × ℕ)
  create_file_in_root name = do
    guard (ltb dir_name_max (length name) || length name == 0) name_too_long
    root_dir_inode ← read_inode 0
    guard (not (is_directory root_dir_inode.mode)) corrupt_layout
    let dir_block = get_or root_dir_inode.direct_pointers 0 0
    guard (dir_block == 0) corrupt_layout
    dir_block_buf ← read_block dir_block
    scanned ← run (scan_entries (entries dir_block_buf) 0 name none)
    empty_slot_index ← try scanned
    slot_index ← ok_or empty_slot_index FileSystemError.no_space
    inode_index ← allocate_inode
    write_inode (fresh_inode FileType.file 1 (replicate 10 0)) inode_index
    updated ← put_entry dir_block_buf slot_index inode_index name
    write_block dir_block updated
    pure (inode_index, dir_block)

pub data FileError : Type 0 where
  block_read_error directory_full block_write_error file_not_found file_exists : FileError
  creation_failed no_space invalid_handle invalid_name corrupt : FileError

-- The `map_err` of `create_file`
unfoldable pub to_file_error : FileSystemError → FileError
to_file_error FileSystemError.name_too_long = FileError.invalid_name
to_file_error FileSystemError.no_space = FileError.no_space
to_file_error FileSystemError.corrupt_layout = FileError.corrupt
to_file_error FileSystemError.format_failed = FileError.creation_failed
to_file_error FileSystemError.mount_failed = FileError.creation_failed
to_file_error FileSystemError.block_error = FileError.creation_failed
to_file_error FileSystemError.invalid_super_block = FileError.creation_failed

-- `FileHandler(pub usize)`
pub record FileHandler : Type 0 where
  pub index : ℕ

module _ {D : Type 0} ⦃dev : BlockDevice D⦄ ⦃z : Zerocopy⦄ where
  -- `FileSystem::create_file`
  unfoldable pub create_file : List ℕ → Sfs D → Exec (Result FileError FileHandler × Sfs D)
  create_file name s = Exec.◌>>=◌ (create_file_in_root name s) λ r.
      done
        (elim r.0 [ ok made ↦ ok (record { index = made.0 }) | err e ↦ err (to_file_error e) ], r.1)

-- `delete_file`, `open_file` and `list_file` are `todo!()`.
abbrev pub delete_file : {D : Type 0} → List ℕ → Sfs D → Exec (Result FileError (Unit {0}) × Sfs D)
delete_file name s = panic

abbrev pub open_file : {D : Type 0} → List ℕ → Sfs D → Exec (Result FileError FileHandler × Sfs D)
open_file name s = panic

abbrev pub list_file : {D : Type 0} → Sfs D → Exec (Result FileError (List (List ℕ)) × Sfs D)
list_file s = panic
