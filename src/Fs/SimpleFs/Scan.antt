-- ===== src/Fs/SimpleFs/Scan.antt =====
-- src/fs/simple_fs.rs: the loop of `create_file_in_root` over the entries, and the names that
-- `create_file` refuses.
use blog_os.Base.{
  ℕ, ◌+◌, ◌≤◌, ◌<◌, ◌≡◌, ◌⊎◌, refl, ◌∙◌, List, [], ◌∷◌, Option, none, some, Result, ok, err, Exec,
  done, length, take, arith, All, Bool, true, false, leb, ltb, ◌==◌, ◌||◌, ◌&&◌, if◌then◌else◌,
}
use blog_os.Fs.Zerocopy.{Zerocopy}
use blog_os.Fs.BlockDev.{BlockDevice, FileSystemError, corrupt_layout}
use blog_os.Fs.Layout.Dirents.{DiskDirEntry, is_used}
use blog_os.Fs.SimpleFs.State.{Sfs}
use blog_os.Fs.SimpleFs.Files.{
  same_bytes, keep_first, has_name, scan_entries, create_file_in_root, create_file, to_file_error,
  FileError,
}

module _ ⦃z : Zerocopy⦄ where
  -- The name's length is at most that of the field.
  abbrev pub IsReadable : DiskDirEntry → Type 0
  IsReadable e = z.get 2 e.name_len ≤ length e.name

  -- The entry is in use and has the name.
  abbrev pub hits : List ℕ → DiskDirEntry → Bool
  hits name e = is_used e && same_bytes (take (z.get 2 e.name_len) e.name) name

  abbrev pub any_hit : List ℕ → List DiskDirEntry → Bool
  any_hit name [] = false
  any_hit name (e ∷ es) = hits name e || any_hit name es

  -- The number of the first entry that is not in use, counted from `i` on.
  abbrev pub first_unused : List DiskDirEntry → ℕ → Option ℕ
  first_unused [] i = none
  first_unused (e ∷ es) i = if is_used e then first_unused es (i + 1) else some i

  abbrev or_else : Option ℕ → Option ℕ → Option ℕ
  or_else none o = o
  or_else (some j) o = some j

  abbrev outcome : Bool → Option ℕ → Result FileSystemError (Option ℕ)
  outcome true o = err corrupt_layout
  outcome false o = ok o

  pub has_name_lem :
      (e : DiskDirEntry) (name : List ℕ)
      → IsReadable e
      → has_name e name ≡ done (same_bytes (take (z.get 2 e.name_len) e.name) name)
  unfolding has_name
  has_name_lem e name h =
      let fits : leb (0 + z.get 2 e.name_len) (length e.name) ≡ true = ground arith in rw fits refl

  scan_step :
      (used hit any : Bool) (slot first : Option ℕ) (i : ℕ)
      (on_other on_free : Exec (Result FileSystemError (Option ℕ)))
      → on_other ≡ done (outcome any (or_else slot first))
      → on_free ≡ done (outcome any (or_else (keep_first slot i) first))
      → (if used then (if hit then done (err corrupt_layout) else on_other) else on_free)
        ≡ done (outcome (used && hit || any) (or_else slot (if used then first else some i)))
  scan_step true true any slot first i on_other on_free h k = refl
  scan_step true false any slot first i on_other on_free h k = h
  scan_step false hit any none first i on_other on_free h k = k
  scan_step false hit any (some j) first i on_other on_free h k = k

  scan_from :
      (es : List DiskDirEntry) (i : ℕ) (name : List ℕ) (slot : Option ℕ)
      → All IsReadable es
      → scan_entries es i name slot
        ≡ done (outcome (any_hit name es) (or_else slot (first_unused es i)))
  unfolding scan_entries
  scan_from [] i name none h = refl
  scan_from [] i name (some j) h = refl
  scan_from (e ∷ es) i name slot h =
      rw (scan_entries, has_name_lem e name h.0)
        (scan_step (is_used e) (same_bytes (take (z.get 2 e.name_len) e.name) name)
          (any_hit name es) slot (first_unused es (i + 1)) i _ _
          (scan_from es (i + 1) name slot h.1) (scan_from es (i + 1) name (keep_first slot i) h.1))

  -- Where every name's length fits its field, the loop reports a collision if an entry in use has
  -- the name, and otherwise the first entry that is not in use.
  pub scan_entries_lem :
      (es : List DiskDirEntry) (name : List ℕ)
      → All IsReadable es
      → scan_entries es 0 name none
        ≡ done (if any_hit name es then err corrupt_layout else ok (first_unused es 0))
  scan_entries_lem es name h =
      scan_from es 0 name none h ∙ outcome_lem (any_hit name es) (first_unused es 0)
    where
      outcome_lem :
          (b : Bool) (o : Option ℕ)
          → done (outcome b o) ≡ done (if b then err corrupt_layout else ok o)
      outcome_lem true o = refl
      outcome_lem false o = refl

module _ {D : Type 0} ⦃dev : BlockDevice D⦄ ⦃z : Zerocopy⦄ where
  -- An empty name and one of more than 52 bytes are refused, before the disk is touched.
  create_file_refuses :
      (name : List ℕ) (s : Sfs D)
      → (length name ≡ 0) ⊎ (52 < length name)
      → create_file name s ≡ done (err FileError.invalid_name, s)
  unfolding create_file create_file_in_root to_file_error
  create_file_refuses name s h =
      let bad : (ltb 52 (length name) || length name == 0) ≡ true = ground arith in
      rw (create_file, bad) refl
