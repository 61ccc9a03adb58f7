-- ===== src/Tests/Fixtures.antt =====
-- Values for the parameters: little-endian words, and a disk in memory.
use native.Mathlib.Nat.{pow-suc}
use blog_os.Base.{
  ℕ, zero, suc, ◌+◌, ◌*◌, ◌/◌, ◌%◌, ◌^◌, ◌<◌, ◌≡◌, refl, ap, List, [], ◌∷◌, length, All, replicate,
  arith, ◌==◌, ltb, if◌then◌else◌, ok, err,
}
use blog_os.Base.Bytes.{IsByte}
use blog_os.Fs.Zerocopy.{Zerocopy}
use blog_os.Fs.BlockDev.{BlockDevice, block_error}

-- The little-endian bytes of a number, and the number of such bytes.
abbrev pub le_bytes : ℕ → ℕ → List ℕ
le_bytes zero n = []
le_bytes (suc w) n = (n % 256) ∷ le_bytes w (n / 256)

abbrev pub le_value : List ℕ → ℕ
le_value [] = 0
le_value (b ∷ bs) = b + 256 * le_value bs

pub length-le_bytes : (w n : ℕ) → length (le_bytes w n) ≡ w
length-le_bytes zero n = refl
length-le_bytes (suc w) n = ap suc (length-le_bytes w (n / 256))

pub le_bytes-IsByte : (w n : ℕ) → All IsByte (le_bytes w n)
le_bytes-IsByte zero n = tt
le_bytes-IsByte (suc w) n = (omega arith, le_bytes-IsByte w (n / 256))

pub le_value-le_bytes : (w n : ℕ) → n < 256 ^ w → le_value (le_bytes w n) ≡ n
le_value-le_bytes zero n h = omega arith
le_value-le_bytes (suc w) n h =
    omega (arith, pow-suc 256 w, le_value-le_bytes w (n / 256) (omega (arith, pow-suc 256 w)))

pub le_value_zeros : (w : ℕ) → le_value (replicate w 0) ≡ 0
le_value_zeros zero = refl
le_value_zeros (suc w) = omega (arith, le_value_zeros w)

pub le_value-lt : (w : ℕ) (bs : List ℕ) → length bs ≡ w → All IsByte bs → le_value bs < 256 ^ w
le_value-lt zero [] h a = omega arith
le_value-lt zero (b ∷ bs) h a = absurd (omega arith)
le_value-lt (suc w) [] h a = absurd (omega arith)
le_value-lt (suc w) (b ∷ bs) h a =
    omega (arith, pow-suc 256 w, le_value-lt w bs (omega arith) a.1, a.0)

instance abbrev pub little_endian : Zerocopy
little_endian = record {
  new = le_bytes;
  get = λ w bs. le_value bs;
  length-new = length-le_bytes;
  new_bytes = le_bytes-IsByte;
  get-new = le_value-le_bytes;
  get_zeros = le_value_zeros;
  get-lt = le_value-lt;
}

-- A disk in memory; a block number past its end is an error.
pub record RamDisk : Type 0 where
  pub size : ℕ
  pub block_at : ℕ → List ℕ

instance abbrev pub ram_device : BlockDevice RamDisk
ram_device = record {
  read_blocks = λ d id buffer.
      if ltb id d.size then (ok tt, d.block_at id, d) else (err block_error, buffer, d);
  write_blocks = λ d id buffer.
      if ltb id d.size
      then (ok tt, record d { block_at = λ k. if k == id then buffer else d.block_at k })
      else (err block_error, d);
  capacity = λ d. d.size;
}

-- An empty disk of 40 blocks.
abbrev pub blank_disk : RamDisk
blank_disk = record { size = 40; block_at = λ k. replicate 512 0 }
