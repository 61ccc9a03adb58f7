-- ===== src/Fs/Layout/Inodes.antt =====
-- src/fs/layout.rs: `Inode` and its on-disk form `DiskInode`.
use blog_os.Base.{
  ℕ, ◌^◌, ◌<◌, ◌≡◌, ap, List, [], ◌∷◌, ◌++◌, map, Option, none, some, arith, length, get_or, take,
  drop, ◌==◌, if◌then◌else◌, Result, ok, err, All, All-append, refl, replicate, take-append,
  drop-append, ◌∙◌, zero, suc,
}
use blog_os.Base.Bytes.{IsByte}
use blog_os.Fs.Zerocopy.{Zerocopy}
use blog_os.Fs.Layout.Fields.{
  concat, split, Fit, split-concat, length-concat, Fit-append, All-concat,
}
use blog_os.Fs.Layout.{FileType, file_type_try_from, u16_from, try_from-u16_from}

pub record Inode : Type 0 where
  pub mode : FileType
  pub user_id : ℕ
  pub group_id : ℕ
  pub link_count : ℕ
  pub size_in_bytes : ℕ
  pub last_access_time : ℕ
  pub last_modification_time : ℕ
  pub creation_time : ℕ
  pub direct_pointers : List ℕ
  pub indirect_pointer : ℕ

pub record DiskInode : Type 0 where
  pub size_in_bytes : List ℕ
  pub last_access_time : List ℕ
  pub last_modification_time : List ℕ
  pub creation_time : List ℕ
  pub direct_pointers : List (List ℕ)
  pub indirect_pointer : List ℕ
  pub mode : List ℕ
  pub user_id : List ℕ
  pub group_id : List ℕ
  pub link_count : List ℕ

-- `size_of::<DiskInode>()`, which the source asserts to be 128
abbrev pub disk_inode_size : ℕ
disk_inode_size = 128

-- Four words, the ten direct pointers, the indirect pointer and four half-words.
abbrev pub widths : List ℕ
widths = 8 ∷ 8 ∷ 8 ∷ 8 ∷ (replicate 10 8 ++ 8 ∷ 2 ∷ 2 ∷ 2 ∷ 2 ∷ [])

abbrev pub fields : DiskInode → List (List ℕ)
fields d =
    d.size_in_bytes
    ∷ d.last_access_time
    ∷ d.last_modification_time
    ∷ d.creation_time
    ∷ (d.direct_pointers
        ++ d.indirect_pointer ∷ d.mode ∷ d.user_id ∷ d.group_id ∷ d.link_count ∷ [])

abbrev pub of_fields : List (List ℕ) → DiskInode
of_fields ps = record {
  size_in_bytes = get_or ps 0 [];
  last_access_time = get_or ps 1 [];
  last_modification_time = get_or ps 2 [];
  creation_time = get_or ps 3 [];
  direct_pointers = take 10 (drop 4 ps);
  indirect_pointer = get_or (drop 10 (drop 4 ps)) 0 [];
  mode = get_or (drop 10 (drop 4 ps)) 1 [];
  user_id = get_or (drop 10 (drop 4 ps)) 2 [];
  group_id = get_or (drop 10 (drop 4 ps)) 3 [];
  link_count = get_or (drop 10 (drop 4 ps)) 4 [];
}

unfoldable pub as_bytes : DiskInode → List ℕ
as_bytes d = concat (fields d)

unfoldable pub ref_from_bytes : List ℕ → Option DiskInode
ref_from_bytes bs =
    if length bs == disk_inode_size then some (of_fields (split widths bs)) else none

module _ ⦃z : Zerocopy⦄ where
  -- `From<Inode> for DiskInode`
  unfoldable pub from_inode : Inode → DiskInode
  from_inode i = record {
    size_in_bytes = z.new 8 i.size_in_bytes;
    last_access_time = z.new 8 i.last_access_time;
    last_modification_time = z.new 8 i.last_modification_time;
    creation_time = z.new 8 i.creation_time;
    direct_pointers = map (z.new 8) i.direct_pointers;
    indirect_pointer = z.new 8 i.indirect_pointer;
    mode = z.new 2 (u16_from i.mode);
    user_id = z.new 2 i.user_id;
    group_id = z.new 2 i.group_id;
    link_count = z.new 2 i.link_count;
  }

  of_disk_inode : DiskInode → FileType → Inode
  of_disk_inode d mode = record {
    mode = mode;
    user_id = z.get 2 d.user_id;
    group_id = z.get 2 d.group_id;
    link_count = z.get 2 d.link_count;
    size_in_bytes = z.get 8 d.size_in_bytes;
    last_access_time = z.get 8 d.last_access_time;
    last_modification_time = z.get 8 d.last_modification_time;
    creation_time = z.get 8 d.creation_time;
    direct_pointers = map (z.get 8) d.direct_pointers;
    indirect_pointer = z.get 8 d.indirect_pointer;
  }

  -- `TryFrom<DiskInode> for Inode`: an unknown mode is the only error
  unfoldable pub inode_try_from : DiskInode → Result (Unit {0}) Inode
  unfolding of_disk_inode
  inode_try_from d = elim (file_type_try_from (z.get 2 d.mode)) [
    | ok mode ↦ ok (of_disk_inode d mode)
    | err e ↦ err e
  ]

-- The values fit the fields' machine types, and there are ten direct pointers.
pub record IsInRange (i : Inode) : Type 0 where
  pub user_id : i.user_id < 2 ^ 16
  pub group_id : i.group_id < 2 ^ 16
  pub link_count : i.link_count < 2 ^ 16
  pub size_in_bytes : i.size_in_bytes < 2 ^ 64
  pub last_access_time : i.last_access_time < 2 ^ 64
  pub last_modification_time : i.last_modification_time < 2 ^ 64
  pub creation_time : i.creation_time < 2 ^ 64
  pub ten_pointers : length i.direct_pointers ≡ 10
  pub direct_pointers : All (λ p. p < 2 ^ 64) i.direct_pointers
  pub indirect_pointer : i.indirect_pointer < 2 ^ 64

module _ ⦃z : Zerocopy⦄ where
  get_list-new_list :
      (ps : List ℕ) → All (λ p. p < 2 ^ 64) ps → map (z.get 8) (map (z.new 8) ps) ≡ ps
  get_list-new_list [] h = refl
  get_list-new_list (p ∷ ps) (hp, h) = rw (z.get-new 8 p hp, get_list-new_list ps h)

  u16_from-lt : (t : FileType) → u16_from t < 256 ^ 2
  unfolding u16_from
  u16_from-lt FileType.unknown = omega arith
  u16_from-lt FileType.file = omega arith
  u16_from-lt FileType.directory = omega arith

  of_disk_inode-from_inode : (i : Inode) → IsInRange i → of_disk_inode (from_inode i) i.mode ≡ i
  unfolding of_disk_inode from_inode
  of_disk_inode-from_inode i r = rw (
    z.get-new 2 i.user_id r.user_id,
    z.get-new 2 i.group_id r.group_id,
    z.get-new 2 i.link_count r.link_count,
    z.get-new 8 i.size_in_bytes r.size_in_bytes,
    z.get-new 8 i.last_access_time r.last_access_time,
    z.get-new 8 i.last_modification_time r.last_modification_time,
    z.get-new 8 i.creation_time r.creation_time,
    get_list-new_list i.direct_pointers r.direct_pointers,
    z.get-new 8 i.indirect_pointer r.indirect_pointer,
  )

  mode-from_inode : (i : Inode) → file_type_try_from (z.get 2 (from_inode i).mode) ≡ ok i.mode
  unfolding from_inode
  mode-from_inode i =
      rw (z.get-new 2 (u16_from i.mode) (u16_from-lt i.mode)) (try_from-u16_from i.mode)

  -- An inode whose values fit their fields is the conversion of its on-disk form.
  pub inode_try_from-from_inode : (i : Inode) → IsInRange i → inode_try_from (from_inode i) ≡ ok i
  unfolding inode_try_from
  inode_try_from-from_inode i r = ground (arith, mode-from_inode i, of_disk_inode-from_inode i r)

  map_new-Fit : (n : ℕ) (ps : List ℕ) → length ps ≡ n → Fit (replicate n 8) (map (z.new 8) ps)
  map_new-Fit zero [] h = tt
  map_new-Fit zero (p ∷ ps) h = absurd (omega arith)
  map_new-Fit (suc n) [] h = absurd (omega arith)
  map_new-Fit (suc n) (p ∷ ps) h = (z.length-new 8 p, map_new-Fit n ps (omega arith))

  -- The direct pointers and what follows them.
  tail-Fit :
      (i : Inode)
      → length i.direct_pointers ≡ 10
      → Fit (drop 4 widths) (drop 4 (fields (from_inode i)))
  unfolding from_inode
  tail-Fit i h =
      Fit-append (replicate 10 8) (8 ∷ 2 ∷ 2 ∷ 2 ∷ 2 ∷ []) (map (z.new 8) i.direct_pointers) _
        (map_new-Fit 10 i.direct_pointers h)
        (
          z.length-new 8 i.indirect_pointer,
          (
            z.length-new 2 (u16_from i.mode),
            (
              z.length-new 2 i.user_id,
              (z.length-new 2 i.group_id, (z.length-new 2 i.link_count, tt)),
            ),
          ),
        )

  from_inode-Fit : (i : Inode) → length i.direct_pointers ≡ 10 → Fit widths (fields (from_inode i))
  unfolding from_inode
  from_inode-Fit i h = (
    z.length-new 8 i.size_in_bytes,
    (
      z.length-new 8 i.last_access_time,
      (z.length-new 8 i.last_modification_time, (z.length-new 8 i.creation_time, tail-Fit i h)),
    ),
  )

  pub length-as_bytes :
      (i : Inode) → length i.direct_pointers ≡ 10 → length (as_bytes (from_inode i)) ≡ 128
  unfolding as_bytes
  length-as_bytes i h = length-concat widths (fields (from_inode i)) (from_inode-Fit i h)

  length-map_new : (ps : List ℕ) → length (map (z.new 8) ps) ≡ length ps
  length-map_new [] = refl
  length-map_new (p ∷ ps) = ap suc (length-map_new ps)

  of_fields-fields :
      (i : Inode) → length i.direct_pointers ≡ 10 → of_fields (fields (from_inode i)) ≡ from_inode i
  unfolding from_inode
  of_fields-fields i h = rw (
    take-append 10 (map (z.new 8) i.direct_pointers) _ (length-map_new i.direct_pointers ∙ h),
    drop-append 10 (map (z.new 8) i.direct_pointers) _ (length-map_new i.direct_pointers ∙ h),
  )

  split-as_bytes :
      (i : Inode)
      → length i.direct_pointers ≡ 10
      → split widths (as_bytes (from_inode i)) ≡ fields (from_inode i)
  unfolding as_bytes
  split-as_bytes i h = split-concat widths (fields (from_inode i)) (from_inode-Fit i h)

  pub ref_from_bytes-as_bytes :
      (i : Inode)
      → length i.direct_pointers ≡ 10
      → ref_from_bytes (as_bytes (from_inode i)) ≡ some (from_inode i)
  unfolding ref_from_bytes
  ref_from_bytes-as_bytes i h =
      rw (length-as_bytes i h)
        (ap (λ ps. some (of_fields ps)) (split-as_bytes i h) ∙ ap some (of_fields-fields i h))

  new_list-IsByte : (ps : List ℕ) → All (All IsByte) (map (z.new 8) ps)
  new_list-IsByte [] = tt
  new_list-IsByte (p ∷ ps) = (z.new_bytes 8 p, new_list-IsByte ps)

  pub as_bytes-IsByte : (i : Inode) → All IsByte (as_bytes (from_inode i))
  unfolding as_bytes from_inode
  as_bytes-IsByte i = All-concat IsByte (fields (from_inode i)) (
    z.new_bytes 8 i.size_in_bytes,
    (
      z.new_bytes 8 i.last_access_time,
      (
        z.new_bytes 8 i.last_modification_time,
        (
          z.new_bytes 8 i.creation_time,
          All-append (All IsByte) (map (z.new 8) i.direct_pointers) _
              (new_list-IsByte i.direct_pointers)
              (
                z.new_bytes 8 i.indirect_pointer,
                (
                  z.new_bytes 2 (u16_from i.mode),
                  (
                    z.new_bytes 2 i.user_id,
                    (z.new_bytes 2 i.group_id, (z.new_bytes 2 i.link_count, tt)),
                  ),
                ),
              ),
        ),
      ),
    ),
  )
