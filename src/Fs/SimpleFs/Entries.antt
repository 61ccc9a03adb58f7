-- ===== src/Fs/SimpleFs/Entries.antt =====
-- src/fs/simple_fs.rs: what `write_dirent_into_block` and `find_free_dir_slot` do to a directory
-- block.
use native.Mathlib.Decide.{dec_lt}
use blog_os.Base.{
  ℕ, zero, suc, ◌+◌, ◌-◌, ◌*◌, ◌%◌, ◌^◌, ◌≤◌, ◌<◌, ◌≡◌, ◌≢◌, refl, sym, ap, ◌∙◌, ◌⊎◌, inl, inr,
  List, [], ◌∷◌, ◌++◌, Option, none, some, ok, err, done, length, take, drop, arith, Bool, true,
  false, ◌==◌, ltb, leb, not, ◌||◌, if◌then◌else◌, length-append, length-replicate, take-append,
  replicate,
}
use blog_os.Base.Slices.{splice, length-splice, splice_self, splice_other}
use blog_os.Fs.Zerocopy.{Zerocopy}
use blog_os.Fs.BlockDev.{name_too_long}
use blog_os.Fs.Layout.Fields.{split, Fit, split-concat, length-concat}
use blog_os.Fs.Layout.{block_size, dirent_used}
use blog_os.Fs.Layout.Dirents.{
  widths, fields, of_fields, as_bytes, entry_at, is_used, ref_from_bytes-slot_bytes,
}
use blog_os.Fs.SimpleFs.Dirs.{
  new_entry, write_dirent_into_block, free_slot_from, find_free_dir_slot,
}
use blog_os.Fs.SimpleFs.Files.{same_bytes, has_name}

apart_slots :
    (slot other n : ℕ)
    → other ≢ slot
    → n ≡ 64
    → (other * 64 + 64 ≤ slot * 64) ⊎ (slot * 64 + n ≤ other * 64)
apart_slots slot other n ne e = elim (dec_lt other slot) [
  | yes below ↦ inl (omega arith)
  | no not_below ↦ elim (dec_lt slot other) [
    | yes above ↦ inr (omega arith)
    | no not_above ↦ absurd (ne (omega arith))
  ]
]

module _ ⦃z : Zerocopy⦄ where
  new_entry-Fit :
      (inode : ℕ) (name : List ℕ) → length name ≤ 52 → Fit widths (fields (new_entry inode name))
  unfolding new_entry
  new_entry-Fit inode name h = omega (
    arith,
    z.length-new 8 inode,
    z.length-new 2 (length name % 2 ^ 16),
    z.length-new 2 dirent_used,
    length-append name (replicate (52 - length name) 8),
    length-replicate {A = ℕ} (52 - length name) 8,
  )

  pub length-as_bytes :
      (inode : ℕ) (name : List ℕ) → length name ≤ 52 → length (as_bytes (new_entry inode name)) ≡ 64
  unfolding as_bytes
  length-as_bytes inode name h =
      length-concat widths (fields (new_entry inode name)) (new_entry-Fit inode name h)

  of_fields-as_bytes :
      (inode : ℕ) (name : List ℕ)
      → length name ≤ 52
      → of_fields (split widths (as_bytes (new_entry inode name))) ≡ new_entry inode name
  unfolding as_bytes
  of_fields-as_bytes inode name h =
      ap of_fields
        (split-concat widths (fields (new_entry inode name)) (new_entry-Fit inode name h))

  -- A name that fits is written to its slot of the block: that slot then holds the new entry, and
  -- every other slot what it held. A longer name is refused.
  pub write_dirent_into_block_lem :
      (block : List ℕ) (slot inode : ℕ) (name : List ℕ)
      → length block ≡ block_size
      → slot < 8
      → ((length name ≤ 52)
          × ((block' : List ℕ) × (write_dirent_into_block block slot inode name ≡ done (ok block'))
              × (length block' ≡ block_size)
              × (entry_at block' slot ≡ new_entry inode name)
              × ((other : ℕ)
                  → other < 8
                  → other ≢ slot
                  → entry_at block' other ≡ entry_at block other)))
        ⊎ ((52 < length name)
            × (write_dirent_into_block block slot inode name ≡ done (err name_too_long)))
  unfolding write_dirent_into_block
  write_dirent_into_block_lem block slot inode name len lt = elim (dec_lt 52 (length name)) [
    | yes long ↦ inr (long, ground arith)
    | no short ↦
        let new : List ℕ = as_bytes (new_entry inode name) in
        let new_len : length new ≡ 64 = length-as_bytes inode name (omega arith) in
        let fits : leb (slot * 64 + length new) (length block) ≡ true = ground arith in
        let small : ltb 52 (length name) ≡ false = ground arith in
        let written : List ℕ = splice block (slot * 64) new in
        inl (
          omega arith,
          (
            written,
            rw (small, fits),
            length-splice block (slot * 64) new (omega arith) ∙ len,
            ap (λ bs. of_fields (split widths bs))
                  (ap (λ n. take n (drop (slot * 64) written)) (sym new_len)
                    ∙ splice_self block (slot * 64) new (omega arith))
                ∙ of_fields-as_bytes inode name (omega arith),
            λ other lt' ne.
                ap (λ bs. of_fields (split widths bs))
                  (splice_other block (slot * 64) new (omega arith) (other * 64) 64
                    (apart_slots slot other (length new) ne new_len)),
          ),
        )
  ]

-- The first slot of a block, from slot `i` on, that is unused or has the inode 0.
pub data FirstFree ⦃z : Zerocopy⦄ (block : List ℕ) : ℕ → ℕ → Option ℕ → Type 0 where
  none_free : {i : ℕ} → FirstFree block zero i none
  free_here :
      {n i : ℕ}
      → (not (is_used (entry_at block i)) || z.get 8 (entry_at block i).inode == 0) ≡ true
      → FirstFree block (suc n) i (some i)
  taken :
      {n i : ℕ} {o : Option ℕ}
      → is_used (entry_at block i) ≡ true
      → z.get 8 (entry_at block i).inode ≢ 0
      → FirstFree block n (i + 1) o
      → FirstFree block (suc n) i o

free_from_step :
    ⦃z : Zerocopy⦄ (block : List ℕ) (n i : ℕ) (o : Option ℕ) (used zeroed : Bool)
    → is_used (entry_at block i) ≡ used
    → (z.get 8 (entry_at block i).inode == 0) ≡ zeroed
    → FirstFree block n (i + 1) o
    → FirstFree block (suc n) i (if not used || zeroed then some i else o)
free_from_step block n i o false zeroed hu hz rest = free_here (rw hu refl)
free_from_step block n i o true true hu hz rest = free_here (rw (hu, hz) refl)
free_from_step block n i o true false hu hz rest =
    taken hu (λ e. absurd (ground (arith, hz, e))) rest

free_slot_from_lem :
    ⦃z : Zerocopy⦄ (block : List ℕ) (n i : ℕ)
    → length block ≡ block_size
    → i + n ≤ 8
    → FirstFree block n i (free_slot_from block n i)
unfolding free_slot_from
free_slot_from_lem block zero i h k = none_free
free_slot_from_lem ⦃z⦄ block (suc n) i h k =
    rw (free_slot_from, ref_from_bytes-slot_bytes block i h (omega arith))
      (free_from_step block n i (free_slot_from block n (i + 1)) _ _ refl refl
        (free_slot_from_lem block n (i + 1) h (omega arith)))

-- On a block of 512 bytes, `find_free_dir_slot` returns the first of the eight slots that is
-- unused or has the inode 0, and nothing if there is none.
pub find_free_dir_slot_lem :
    ⦃z : Zerocopy⦄ (block : List ℕ)
    → length block ≡ block_size
    → FirstFree block 8 0 (find_free_dir_slot block)
unfolding find_free_dir_slot
find_free_dir_slot_lem block h = free_slot_from_lem block 8 0 h (omega arith)

FirstFree-zero :
    ⦃z : Zerocopy⦄ (block : List ℕ) (n i : ℕ) (o : Option ℕ)
    → FirstFree block (suc n) i o
    → z.get 8 (entry_at block i).inode ≡ 0
    → o ≡ some i
FirstFree-zero block n i (some _) (free_here h) e = refl
FirstFree-zero block n i o (taken u ne rest) e = absurd (ne e)

same_bytes_refl : (bs : List ℕ) → same_bytes bs bs ≡ true
unfolding same_bytes
same_bytes_refl [] = refl
same_bytes_refl (b ∷ bs) = ground (arith, same_bytes_refl bs)

module _ ⦃z : Zerocopy⦄ where
  pub flags_used : (inode : ℕ) (name : List ℕ) → is_used (new_entry inode name) ≡ true
  unfolding new_entry
  flags_used inode name = rw (z.get-new 2 1 (omega arith)) refl

  -- An entry with a name of at most 52 bytes and an inode of 64 bits is in use, has its inode, and
  -- is recognized by its name.
  pub has_name-new_entry :
      (inode : ℕ) (name : List ℕ)
      → length name ≤ 52
      → inode < 2 ^ 64
      → (is_used (new_entry inode name) ≡ true)
        × (z.get 8 (new_entry inode name).inode ≡ inode)
        × (has_name (new_entry inode name) name ≡ done true)
  unfolding new_entry has_name
  has_name-new_entry inode name h lt =
      let len : z.get 2 (z.new 2 (length name % 2 ^ 16)) ≡ length name =
        z.get-new 2 (length name % 2 ^ 16) (omega arith) ∙ omega arith in
      let padded : List ℕ = name ++ replicate (52 - length name) 8 in
      let fits : leb (0 + length name) (length padded) ≡ true =
        ground (arith, length-append name (replicate (52 - length name) 8)) in
      let same = same_bytes_refl name in
      (
        flags_used inode name,
        z.get-new 8 inode lt,
        rw (len, fits, take-append (length name) name (replicate (52 - length name) 8) refl, same)
            refl,
      )

  -- Behind a write of an entry with the inode 0, which `init_root_directory` gives to `.` and
  -- `..`, at the first slot, that slot is found to be free again.
  pub find_free_dir_slot-write_dirent_into_block :
      (block name : List ℕ)
      → length block ≡ block_size
      → length name ≤ 52
      → (block' : List ℕ) × (write_dirent_into_block block 0 0 name ≡ done (ok block'))
        × (find_free_dir_slot block' ≡ some 0)
  unfolding new_entry
  find_free_dir_slot-write_dirent_into_block block name len short =
      elim (write_dirent_into_block_lem block 0 0 name len (omega arith)) [
        | inr (long, e) ↦ absurd (omega arith)
        | inl (s, (block', wrote, len', here, other)) ↦ (
          block',
          wrote,
          FirstFree-zero block' 7 0 _ (find_free_dir_slot_lem block' len')
              (ap (λ e. z.get 8 e.inode) here ∙ z.get-new 8 0 (omega arith)),
        )
      ]
