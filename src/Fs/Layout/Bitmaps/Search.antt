-- ===== src/Fs/Layout/Bitmaps/Search.antt =====
-- `Bitmap::find_and_set_first_free` finds the first clear bit.
use blog_os.Base.{
  ℕ, suc, ◌+◌, ◌*◌, ◌≡◌, refl, List, [], ◌∷◌, ◌++◌, Option, none, some, get_elem?, length, All,
  Bool, true, false, arith, Exec, done, Option-cases, inl, inr,
}
use blog_os.Base.Bytes.{IsByte, byte_bits, byte_bits_full}
use blog_os.Fs.Layout.Bitmaps.Abs
use blog_os.Fs.Layout.Bitmaps.Bits.{
  Bitmap, first_clear, take_bit, find_loop, find_and_set_first_free, bits, first_false,
}
use blog_os.Fs.Layout.Bitmaps.Laws.{view, set_bit_refines, length-byte_bits}

shift : ℕ → Option ℕ → Option ℕ
shift n none = none
shift n (some i) = some (n + i)

first_false-append :
    (xs ys : List Bool)
    → first_false (xs ++ ys)
      ≡ elim (first_false xs) [ none ↦ shift (length xs) (first_false ys) | some i ↦ some i ]
unfolding shift
first_false-append [] ys = ground arith
first_false-append (false ∷ xs) ys = refl
first_false-append (true ∷ xs) ys = ground (arith, first_false-append xs ys)

first_clear_lem : (b : ℕ) → first_clear b 8 0 ≡ first_false (byte_bits b)
unfolding first_clear byte_bits
first_clear_lem b = ground arith

-- A full byte has no clear bit.
full_lem : (b : ℕ) → b ≡ 255 → first_false (byte_bits b) ≡ none
full_lem b e = rw (e, byte_bits_full)

-- What `find_loop` does with the first clear bit, if there is one.
unfoldable pub found : Bitmap → ℕ → Option ℕ → Exec (Option ℕ × Bitmap)
found map i none = done (none, map)
found map i (some k) = take_bit map (i * 8 + k)

found-shift : (map : Bitmap) (i : ℕ) (o : Option ℕ) → found map i (shift 8 o) ≡ found map (i + 1) o
unfolding found shift
found-shift map i none = refl
found-shift map i (some k) = let e : i * 8 + (8 + k) ≡ (i + 1) * 8 + k = omega arith in rw e

-- The search stops at the first clear bit of what is left to scan.
pub find_loop_lem :
    (map rest : Bitmap) (i : ℕ) → find_loop map rest i ≡ found map i (first_false (bits rest))
unfolding find_loop bits found
find_loop_lem map [] i = refl
find_loop_lem map (b ∷ rest) i = ground (
  arith,
  first_false-append (byte_bits b) (bits rest),
  length-byte_bits b,
  full_lem b,
  first_clear_lem b,
  found-shift map i (first_false (bits rest)),
  find_loop_lem map rest (i + 1),
)

pub first_false-get :
    (bs : List Bool) (k : ℕ) → first_false bs ≡ some k → get_elem? bs k ≡ some false
first_false-get [] k h = cc
first_false-get (false ∷ bs) k h = let e : 0 ≡ k = ground arith in rw (← e)
first_false-get (true ∷ bs) k h = elim (Option-cases (first_false bs)) [
  | inl e ↦ ground arith
  | inr (j, e) ↦ let k-eq : suc j ≡ k = ground arith in rw (← k-eq) (first_false-get bs j e)
]

found_refines :
    (map : Bitmap) (o : Option ℕ)
    → All IsByte map
    → first_false (bits map) ≡ o
    → view (found map 0 o) ≡ Abs.find_and_set_first_free (bits map)
unfolding found take_bit Abs.find_and_set_first_free Abs.set_bit
found_refines map none h e = rw e
found_refines map (some k) h e =
    ground (arith, set_bit_refines map k h, first_false-get (bits map) k e)

-- The search takes the first clear bit, and changes nothing where there is none.
pub find_and_set_first_free_refines :
    (map : Bitmap)
    → All IsByte map
    → view (find_and_set_first_free map) ≡ Abs.find_and_set_first_free (bits map)
unfolding find_and_set_first_free
find_and_set_first_free_refines map h =
    rw (find_loop_lem map map 0) (found_refines map (first_false (bits map)) h refl)
