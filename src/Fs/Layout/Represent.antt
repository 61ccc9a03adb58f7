-- ===== src/Fs/Layout/Represent.antt =====
-- src/fs/layout.rs: the three on-disk structures against the bytes that they take on the disk.
use std.Equiv.{IsEquiv, Iso, iso_to_equiv}
use std.HLevel.{Σ_prop_path}
use native.Mathlib.Bridge.{le_prop}
use native.Mathlib.Nat.{ℕ_set}
use blog_os.Base.{
  All, ℕ, suc, ◌≡◌, refl, ap, List, [], ◌∷◌, length, drop, arith, length-append, take-append,
  drop-append,
}
use blog_os.Base.Bytes.{IsByte}
use blog_os.Base.Slices.{All-take, All-drop}
use blog_os.Fs.Layout.Fields.{
  concat, split, sum, Fit, split-concat, concat-split, length-concat, split-Fit, All-concat,
}
use blog_os.Fs.Layout.{inode_size, dir_entry_size}
use blog_os.Fs.Layout.Superblock
use blog_os.Fs.Layout.Superblock.{disk_super_block_size}
use blog_os.Fs.Layout.Inodes
use blog_os.Fs.Layout.Dirents

-- `[u8; n]`
abbrev Bytes : ℕ → Type 0
Bytes n = (bs : List ℕ) × ((length bs ≡ n) × All IsByte bs)

All-split : (ws bs : List ℕ) → All IsByte bs → All (All IsByte) (split ws bs)
All-split [] bs h = tt
All-split (w ∷ ws) bs h =
    (All-take IsByte w bs h, All-split ws (drop w bs) (All-drop IsByte w bs h))

All_IsByte-IsProp : (bs : List ℕ) → IsProp (All IsByte bs)
All_IsByte-IsProp [] = hlevel
All_IsByte-IsProp (b ∷ bs) = hlevel (le_prop, All_IsByte-IsProp bs)

All_All-IsProp : (ps : List (List ℕ)) → IsProp (All (All IsByte) ps)
All_All-IsProp [] = hlevel
All_All-IsProp (p ∷ ps) = hlevel (All_IsByte-IsProp p, All_All-IsProp ps)

Fit-IsProp : (ws : List ℕ) (ps : List (List ℕ)) → IsProp (Fit ws ps)
Fit-IsProp [] [] = hlevel
Fit-IsProp [] (p ∷ ps) = hlevel
Fit-IsProp (w ∷ ws) [] = hlevel
Fit-IsProp (w ∷ ws) (p ∷ ps) = hlevel (ℕ_set, Fit-IsProp ws ps)

Bytes-ext : {n : ℕ} (a b : Bytes n) → a.0 ≡ b.0 → a ≡ b
Bytes-ext {n = n} a b =
    Σ_prop_path {B = λ bs. (length bs ≡ n) × All IsByte bs}
      (λ bs. hlevel (ℕ_set, All_IsByte-IsProp bs)) {u = a} {v = b}

module _ {S : Type 0} (ws : List ℕ) (fields : S → List (List ℕ)) where
  -- The values of a structure in memory: each field has its width in bytes.
  abbrev InMemory : Type 0
  InMemory = (d : S) × (Fit ws (fields d) × All (All IsByte) (fields d))

  InMemory-ext : (a b : InMemory) → a.0 ≡ b.0 → a ≡ b
  InMemory-ext a b =
      Σ_prop_path {B = λ d. Fit ws (fields d) × All (All IsByte) (fields d)}
        (λ d. hlevel (Fit-IsProp ws (fields d), All_All-IsProp (fields d))) {u = a} {v = b}

module _ {S : Type 0} (ws : List ℕ) (fields : S → List (List ℕ)) (as_bytes : S → List ℕ)
    (concat_fields : (d : S) → as_bytes d ≡ concat (fields d)) where
  unfoldable pub to_bytes : InMemory ws fields → Bytes (sum ws)
  to_bytes (d, (fit, bytes)) = (
    as_bytes d,
    (
      rw (concat_fields d) (length-concat ws (fields d) fit),
      rw (concat_fields d) (All-concat IsByte (fields d) bytes),
    ),
  )

  -- In memory and on the disk, where `of_fields` makes a structure of its fields.
  memory_disk :
      (of_fields : List (List ℕ) → S)
      → ((d : S) → Fit ws (fields d) → of_fields (fields d) ≡ d)
      → ((bs : List ℕ) → fields (of_fields (split ws bs)) ≡ split ws bs)
      → Iso (InMemory ws fields) (Bytes (sum ws))
  unfolding to_bytes
  memory_disk of_fields back forth = record {
    fun = to_bytes;
    inv = λ (bs, (len, bytes)). (
      of_fields (split ws bs),
      (rw (forth bs) (split-Fit ws bs len), rw (forth bs) (All-split ws bs bytes)),
    );
    rinv = λ b.
        Bytes-ext _ b
          (rw (concat_fields (of_fields (split ws b.0)), forth b.0) (concat-split ws b.0 b.1.0));
    linv = λ a.
        InMemory-ext ws fields _ a
          (rw (concat_fields a.0, split-concat ws (fields a.0) a.1.0) (back a.0 a.1.0));
  }

  to_bytes-IsEquiv :
      (of_fields : List (List ℕ) → S)
      → ((d : S) → Fit ws (fields d) → of_fields (fields d) ≡ d)
      → ((bs : List ℕ) → fields (of_fields (split ws bs)) ≡ split ws bs)
      → IsEquiv to_bytes
  unfolding memory_disk to_bytes
  to_bytes-IsEquiv of_fields back forth = (iso_to_equiv (memory_disk of_fields back forth)).1

length-Fit : (ws : List ℕ) (ps : List (List ℕ)) → Fit ws ps → length ps ≡ length ws
length-Fit [] [] h = refl
length-Fit [] (p ∷ ps) h = absurd h
length-Fit (w ∷ ws) [] h = absurd h
length-Fit (w ∷ ws) (p ∷ ps) (e, h) = ap suc (length-Fit ws ps h)

inode_fields :
    (d : Inodes.DiskInode)
    → Fit Inodes.widths (Inodes.fields d)
    → Inodes.of_fields (Inodes.fields d) ≡ d
inode_fields d fit =
    let tail : List (List ℕ) =
      d.indirect_pointer ∷ d.mode ∷ d.user_id ∷ d.group_id ∷ d.link_count ∷ [] in
    let ten : length d.direct_pointers ≡ 10 = omega (
      arith,
      length-Fit Inodes.widths (Inodes.fields d) fit,
      length-append d.direct_pointers tail,
    ) in
    rw (take-append 10 d.direct_pointers tail ten, drop-append 10 d.direct_pointers tail ten)

pub super_block_fields :
    (d : Superblock.DiskSuperBlock) → Superblock.as_bytes d ≡ concat (Superblock.fields d)
unfolding Superblock.as_bytes
super_block_fields d = refl

pub disk_inode_fields : (d : Inodes.DiskInode) → Inodes.as_bytes d ≡ concat (Inodes.fields d)
unfolding Inodes.as_bytes
disk_inode_fields d = refl

pub dir_entry_fields : (d : Dirents.DiskDirEntry) → Dirents.as_bytes d ≡ concat (Dirents.fields d)
unfolding Dirents.as_bytes
dir_entry_fields d = refl

-- The on-disk structures with fields of their widths and the arrays of as many bytes as
-- `const_assert!` gives them correspond one to one, by `as_bytes`: 64 bytes for a superblock, 128
-- for an inode and 64 for a directory entry.
pub as_bytes-IsEquiv :
    IsEquiv {B = Bytes disk_super_block_size}
      (to_bytes Superblock.widths Superblock.fields Superblock.as_bytes super_block_fields)
    × IsEquiv {B = Bytes inode_size}
        (to_bytes Inodes.widths Inodes.fields Inodes.as_bytes disk_inode_fields)
    × IsEquiv {B = Bytes dir_entry_size}
        (to_bytes Dirents.widths Dirents.fields Dirents.as_bytes dir_entry_fields)
as_bytes-IsEquiv = (
  to_bytes-IsEquiv Superblock.widths Superblock.fields Superblock.as_bytes super_block_fields
      Superblock.of_fields (λ d fit. refl) (λ bs. refl),
  to_bytes-IsEquiv Inodes.widths Inodes.fields Inodes.as_bytes disk_inode_fields Inodes.of_fields
      inode_fields (λ bs. refl),
  to_bytes-IsEquiv Dirents.widths Dirents.fields Dirents.as_bytes dir_entry_fields Dirents.of_fields
      (λ d fit. refl) (λ bs. refl),
)
