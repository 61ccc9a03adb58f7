-- ===== src/Fs/SimpleFs/Blank.antt =====
-- src/fs/simple_fs.rs: what `init_root_directory` makes of blocks of zeroes.
use blog_os.Base.{
  ℕ, zero, suc, ◌+◌, ◌-◌, ◌*◌, ◌≤◌, ◌<◌, ◌≡◌, refl, ap, ◌∙◌, List, ◌∷◌, some, done, arith,
  replicate, take, drop, false,
}
use blog_os.Base.Bytes.{byte_bits}
use blog_os.Fs.Zerocopy.{Zerocopy}
use blog_os.Fs.Layout.Bitmaps.{bits, is_set, set_bit, first_false}
use blog_os.Fs.Layout.Dirents.{DiskDirEntry, is_used, entry_at, widths, of_fields}
use blog_os.Fs.Layout.Fields.{split}
use blog_os.Fs.SimpleFs.State.{zero_block}
use blog_os.Fs.SimpleFs.Dirs.{mark_root}
use blog_os.Fs.SimpleFs.Reliable.{IsBlock, All-zeros}
use blog_os.Fs.SimpleFs.Scan.{IsReadable}

-- A bitmap with bit 0 set.
abbrev pub root_bitmap : List ℕ
root_bitmap = 1 ∷ replicate 511 0

pub mark_root_zeros : mark_root zero_block ≡ done root_bitmap
unfolding mark_root is_set set_bit
mark_root_zeros = refl

pub first_root : first_false (bits root_bitmap) ≡ some 1
unfolding bits byte_bits
first_root = refl

pub first_zeros : first_false (bits zero_block) ≡ some 0
unfolding bits byte_bits
first_zeros = refl

pub root_bitmap-IsBlock : IsBlock root_bitmap
root_bitmap-IsBlock = record { size = refl; bytes = (omega arith, All-zeros 511) }

module _ {A : Type 0} where
  drop-replicate : (k n m : ℕ) (a : A) → k + m ≡ n → drop k (replicate n a) ≡ replicate m a
  drop-replicate zero n m a e = let same : n ≡ m = omega arith in ap (λ l. replicate l a) same
  drop-replicate (suc k) zero m a e = absurd (omega arith)
  drop-replicate (suc k) (suc n) m a e = drop-replicate k n m a (omega arith)

  take-replicate : (k n : ℕ) (a : A) → k ≤ n → take k (replicate n a) ≡ replicate k a
  take-replicate zero n a h = refl
  take-replicate (suc k) zero a h = absurd (omega arith)
  take-replicate (suc k) (suc n) a h = ap (λ r. a ∷ r) (take-replicate k n a (omega arith))

-- The entry of 64 zeroes.
abbrev pub zero_entry : DiskDirEntry
zero_entry = record {
  inode = replicate 8 0;
  name_len = replicate 2 0;
  flags = replicate 2 0;
  name = replicate 52 0;
}

pub entry_at-zeros : (j : ℕ) → j < 8 → entry_at zero_block j ≡ zero_entry
entry_at-zeros j h =
    ap (λ bs. of_fields (split widths bs))
      (ap (take 64) (drop-replicate (j * 64) 512 (512 - j * 64) 0 (omega arith))
        ∙ take-replicate 64 (512 - j * 64) 0 (omega arith))

module _ ⦃z : Zerocopy⦄ where
  pub zero_entry-unused : is_used zero_entry ≡ false
  zero_entry-unused = rw (z.get_zeros 2) refl

  pub zero_entry-IsReadable : IsReadable zero_entry
  zero_entry-IsReadable = omega (arith, z.get_zeros 2)
