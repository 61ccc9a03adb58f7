-- ===== src/Fs/SimpleFs/Dirs.antt =====
-- src/fs/simple_fs.rs: directory blocks, the root directory and its entries.
use blog_os.Base.{
  ℕ, zero, suc, ◌+◌, ◌-◌, ◌*◌, ◌%◌, ◌^◌, List, [], ◌∷◌, ◌++◌, Option, none, some, Result, ok, err,
  Exec, done, panic, ◌==◌, ltb, leb, if◌then◌else◌, not, ◌||◌, ◌&&◌, Bool, true, false, length,
  take, replicate, get_or,
}
use blog_os.Base as Exec
use blog_os.Fs.Zerocopy.{Zerocopy}
use blog_os.Fs.BlockDev.{BlockDevice, FileSystemError, no_space, name_too_long, corrupt_layout}
use blog_os.Fs.Layout.{
  FileType, inode_bitmap_block, dir_entry_size, dir_name_max, dir_entries_per_block, dirent_used,
}
use blog_os.Fs.Layout.Inodes.{Inode}
use blog_os.Fs.Layout.Dirents.{DiskDirEntry, as_bytes, ref_from_bytes, slot_bytes, is_used}
use blog_os.Fs.Layout.Bitmaps.{Bitmap, is_set, set_bit}
use blog_os.Fs.SimpleFs.State.{
  Method, ◌>>=◌, ◌>>◌, guard, run, try, ok_or, zero_block, read_block, write_block,
}
use blog_os.Base.Slices.{copy_into}
use blog_os.Fs.SimpleFs.Volume.{allocate_data_block}
use blog_os.Fs.SimpleFs.Inodes.{read_inode, write_inode}

-- An inode of the source with no pointer, size or time.
abbrev pub fresh_inode : FileType → ℕ → List ℕ → Inode
fresh_inode mode link_count direct_pointers = record {
  mode = mode;
  user_id = 0;
  group_id = 0;
  link_count = link_count;
  size_in_bytes = 0;
  last_access_time = 0;
  last_modification_time = 0;
  creation_time = 0;
  direct_pointers = direct_pointers;
  indirect_pointer = 0;
}

module _ ⦃z : Zerocopy⦄ where
  -- The entry that `write_dirent_into_block` builds, for a name that fits. The rest of the name is
  -- filled with the byte 8, as in the source (`[08; DIR_NAME_MAX]`).
  unfoldable pub new_entry : ℕ → List ℕ → DiskDirEntry
  new_entry inode name = record {
    inode = z.new 8 inode;
    name_len = z.new 2 (length name % 2 ^ 16);
    flags = z.new 2 dirent_used;
    name = name ++ replicate (dir_name_max - length name) 8;
  }

  unfoldable pub write_dirent_into_block :
      List ℕ → ℕ → ℕ → List ℕ → Exec (Result FileSystemError (List ℕ))
  write_dirent_into_block block slot inode name =
      if ltb dir_name_max (length name)
      then done (err name_too_long)
      else (Exec.◌>>=◌ (copy_into block (slot * dir_entry_size) (as_bytes (new_entry inode name)))
          λ block'. done (ok block'))

  -- The loop of `find_free_dir_slot`, with `n` slots left, from slot `i` on.
  unfoldable pub free_slot_from : List ℕ → ℕ → ℕ → Option ℕ
  free_slot_from block zero i = none
  free_slot_from block (suc n) i =
      let rest = free_slot_from block n (i + 1) in
      elim (ref_from_bytes (slot_bytes block i)) [
        | none ↦ rest
        | some entry ↦ if not (is_used entry) || z.get 8 entry.inode == 0 then some i else rest
      ]

  unfoldable pub find_free_dir_slot : List ℕ → Option ℕ
  unfolding free_slot_from
  find_free_dir_slot block = free_slot_from block dir_entries_per_block 0

-- `if !bm.is_set(0) { bm.set(0); }`, whose result is dropped
unfoldable pub mark_root : Bitmap → Exec Bitmap
mark_root bm =
    Exec.◌>>=◌ (is_set bm 0)
      λ used. if used then done bm else (Exec.◌>>=◌ (set_bit bm 0) λ r. done r.1)

module _ {D : Type 0} ⦃dev : BlockDevice D⦄ ⦃z : Zerocopy⦄ where
  -- A call of `write_dirent_into_block` with `?` behind it.
  abbrev pub put_entry : List ℕ → ℕ → ℕ → List ℕ → Method D (List ℕ)
  put_entry block slot inode name = do
    r ← run (write_dirent_into_block block slot inode name)
    try r

  unfoldable pub init_root_directory : Method D (Unit {0})
  init_root_directory = do
    ibuf ← read_block inode_bitmap_block
    ibuf' ← run (mark_root ibuf)
    write_block inode_bitmap_block ibuf'
    data_block ← allocate_data_block
    write_inode (fresh_inode FileType.directory 2 (data_block ∷ replicate 9 0)) 0
    with_dot ← put_entry zero_block 0 0 (b'.' ∷ [])
    with_dots ← put_entry with_dot 1 0 (b'.' ∷ b'.' ∷ [])
    write_block data_block with_dots

  unfoldable pub add_root_dir_entry : ℕ → List ℕ → Method D (Unit {0})
  add_root_dir_entry inode name = do
    guard (ltb dir_name_max (length name)) name_too_long
    root ← read_inode 0
    let block = get_or root.direct_pointers 0 0
    guard (block == 0) corrupt_layout
    dir_block ← read_block block
    slot ← ok_or (find_free_dir_slot dir_block) no_space
    updated ← put_entry dir_block slot inode name
    write_block block updated
