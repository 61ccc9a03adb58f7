-- ===== src/Fs/Layout/Dirents.antt =====
-- src/fs/layout.rs: `DiskDirEntry`, and the iterator `DirEntryBlock` over a directory block.
use blog_os.Base.{
  ℕ, zero, suc, ◌+◌, ◌*◌, ◌≤◌, ◌<◌, ◌≡◌, refl, ap, ◌∙◌, List, [], ◌∷◌, Option, none, some, arith,
  length, get_or, take, drop, length-take, length-drop, ◌==◌, leb, if◌then◌else◌, bit_and, not,
  Bool,
}
use blog_os.Fs.Zerocopy.{Zerocopy}
use blog_os.Fs.Layout.Fields.{concat, split}
use blog_os.Fs.Layout.{dir_entry_size, dir_entries_per_block, dirent_used, block_size}

pub record DiskDirEntry : Type 0 where
  pub inode : List ℕ
  pub name_len : List ℕ
  pub flags : List ℕ
  pub name : List ℕ

abbrev pub widths : List ℕ
widths = 8 ∷ 2 ∷ 2 ∷ 52 ∷ []

abbrev pub fields : DiskDirEntry → List (List ℕ)
fields d = d.inode ∷ d.name_len ∷ d.flags ∷ d.name ∷ []

abbrev pub of_fields : List (List ℕ) → DiskDirEntry
of_fields ps = record {
  inode = get_or ps 0 [];
  name_len = get_or ps 1 [];
  flags = get_or ps 2 [];
  name = get_or ps 3 [];
}

unfoldable pub as_bytes : DiskDirEntry → List ℕ
as_bytes d = concat (fields d)

unfoldable pub ref_from_bytes : List ℕ → Option DiskDirEntry
ref_from_bytes bs = if length bs == dir_entry_size then some (of_fields (split widths bs)) else none

-- `&block[slot * DIR_ENTRY_SIZE..slot * DIR_ENTRY_SIZE + DIR_ENTRY_SIZE]`, for a slot in bounds
abbrev pub slot_bytes : List ℕ → ℕ → List ℕ
slot_bytes block slot = take dir_entry_size (drop (slot * dir_entry_size) block)

-- The entry at a slot of a block.
abbrev pub entry_at : List ℕ → ℕ → DiskDirEntry
entry_at block slot = of_fields (split widths (slot_bytes block slot))

-- `(entry.flags.get() & DIRENT_USED) != 0`
abbrev pub is_used : ⦃z : Zerocopy⦄ → DiskDirEntry → Bool
is_used ⦃z⦄ entry = not (bit_and (z.get 2 entry.flags) dirent_used == 0)

pub record DirEntryBlock : Type 0 where
  pub block : List ℕ
  pub idx : ℕ

abbrev pub new : List ℕ → DirEntryBlock
new block = record { block = block; idx = 0 }

-- `Iterator::next`
pub next : DirEntryBlock → Option DiskDirEntry × DirEntryBlock
unfolding ref_from_bytes
next self =
    if leb dir_entries_per_block self.idx
    then (none, self)
    else elim (ref_from_bytes (slot_bytes self.block self.idx)) [
      | none ↦ (none, self)
      | some entry ↦ (some entry, record self { idx = self.idx + 1 })
    ]

-- What a `for` loop sees: the entries until the first `None`. A block has eight slots, so nine
-- rounds reach the end.
pub collect : ℕ → DirEntryBlock → List DiskDirEntry
collect zero it = []
collect (suc fuel) it =
    let (item, it') = next it in elim item [ none ↦ [] | some entry ↦ entry ∷ collect fuel it' ]

unfoldable pub entries : List ℕ → List DiskDirEntry
entries block = collect (suc dir_entries_per_block) (new block)

-- The slots from `i` on, `n` of them.
abbrev pub entries_from : List ℕ → ℕ → ℕ → List DiskDirEntry
entries_from block i zero = []
entries_from block i (suc n) = entry_at block i ∷ entries_from block (i + 1) n

pub length-slot_bytes :
    (block : List ℕ) (slot : ℕ)
    → length block ≡ block_size
    → slot < 8
    → length (slot_bytes block slot) ≡ dir_entry_size
length-slot_bytes block slot h k =
    omega (arith, length-take 64 (drop (slot * 64) block), length-drop (slot * 64) block)

pub ref_from_bytes-slot_bytes :
    (block : List ℕ) (slot : ℕ)
    → length block ≡ block_size
    → slot < 8
    → ref_from_bytes (slot_bytes block slot) ≡ some (entry_at block slot)
unfolding ref_from_bytes
ref_from_bytes-slot_bytes block slot h k = rw (length-slot_bytes block slot h k)

next_lem :
    (i : ℕ) (block : List ℕ)
    → length block ≡ block_size
    → i < 8
    → next (record { block = block; idx = i })
      ≡ (some (entry_at block i), record { block = block; idx = i + 1 })
unfolding next
next_lem i block h k = ground (arith, ref_from_bytes-slot_bytes block i h k)

next_end : (it : DirEntryBlock) → 8 ≤ it.idx → next it ≡ (none, it)
unfolding next
next_end it h = ground arith

collect_step :
    (fuel : ℕ) (it it' : DirEntryBlock) (e : DiskDirEntry)
    → next it ≡ (some e, it')
    → collect (suc fuel) it ≡ e ∷ collect fuel it'
unfolding collect
collect_step fuel it it' e h = ground arith

collect_from :
    (n i : ℕ) (block : List ℕ)
    → length block ≡ block_size
    → i + n ≡ 8
    → collect (suc n) (record { block = block; idx = i }) ≡ entries_from block i n
collect_from zero i block h e =
    unfold collect in rw (next_end (record { block = block; idx = i }) (omega arith), collect)
collect_from (suc n) i block h e =
    collect_step (suc n) _ _ _ (next_lem i block h (omega arith))
    ∙ ap (λ es. entry_at block i ∷ es) (collect_from n (i + 1) block h (omega arith))

-- Iterating over a block of 512 bytes gives its eight slots in order, and then ends.
pub entries_lem :
    (block : List ℕ) → length block ≡ block_size → entries block ≡ entries_from block 0 8
unfolding entries
entries_lem block h = collect_from 8 0 block h refl
