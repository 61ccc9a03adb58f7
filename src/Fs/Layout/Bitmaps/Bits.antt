-- ===== src/Fs/Layout/Bitmaps/Bits.antt =====
-- src/fs/layout.rs: the operations of `Bitmap`.
use blog_os.Base.{
  ℕ, zero, suc, ◌+◌, ◌*◌, ◌/◌, ◌%◌, List, [], ◌∷◌, ◌++◌, Option, none, some, get_elem?, set, ◌==◌,
  if◌then◌else◌, bit_and, bit_or, Bool, true, false, Exec, done, ◌>>=◌, expect, Result, ok, err,
}
use blog_os.Base.Bytes.{shl_one, not_u8, bit_test, byte_bits}

-- `map: &mut [u8]`. A method that changes it returns the new bytes.
abbrev pub Bitmap : Type 0
Bitmap = List ℕ

pub data BitmapError : Type 0 where
  already_allocated already_cleared : BitmapError

unfoldable pub is_set : Bitmap → ℕ → Exec Bool
is_set map idx = do byte ← expect (get_elem? map (idx / 8)); done (bit_test byte (idx % 8))

unfoldable pub set_bit : Bitmap → ℕ → Exec (Result BitmapError (Unit {0}) × Bitmap)
unfolding is_set
set_bit map idx = do
  used ← is_set map idx
  byte ← expect (get_elem? map (idx / 8))
  done (
      if used
      then (err already_allocated, map)
      else (ok tt, set map (idx / 8) (bit_or byte (shl_one (idx % 8)))))

unfoldable pub clear_bit : Bitmap → ℕ → Exec (Result BitmapError (Unit {0}) × Bitmap)
unfolding is_set
clear_bit map idx = do
  used ← is_set map idx
  byte ← expect (get_elem? map (idx / 8))
  done (
      if used
      then (ok tt, set map (idx / 8) (bit_and byte (not_u8 (shl_one (idx % 8)))))
      else (err already_cleared, map))

-- The inner loop of `find_and_set_first_free`: the first clear bit of a byte, from `bit` on, with
-- `n` rounds left.
unfoldable pub first_clear : ℕ → ℕ → ℕ → Option ℕ
first_clear byte zero bit = none
first_clear byte (suc n) bit =
    let rest = first_clear byte n (bit + 1) in
    if bit_and byte (shl_one bit) == 0 then some bit else rest

-- `self.set(idx).ok()?` and `Some(idx)`
unfoldable pub take_bit : Bitmap → ℕ → Exec (Option ℕ × Bitmap)
unfolding set_bit
take_bit map idx = do
  (r, map') ← set_bit map idx
  done (elim r [ ok u ↦ (some idx, map') | err e ↦ (none, map') ])

-- The outer loop, over the bytes that are left; `byte_idx` counts those that are done.
unfoldable pub find_loop : Bitmap → List ℕ → ℕ → Exec (Option ℕ × Bitmap)
find_loop map [] byte_idx = done (none, map)
find_loop map (byte ∷ rest) byte_idx =
    let next = find_loop map rest (byte_idx + 1) in
    if byte == 0xff
    then next
    else elim (first_clear byte 8 0) [ none ↦ next | some bit ↦ take_bit map (byte_idx * 8 + bit) ]

unfoldable pub find_and_set_first_free : Bitmap → Exec (Option ℕ × Bitmap)
unfolding find_loop first_clear take_bit
find_and_set_first_free map = find_loop map map 0

-- The abstract view: the bits in order, eight to a byte.
unfoldable pub bits : Bitmap → List Bool
bits [] = []
bits (byte ∷ bytes) = byte_bits byte ++ bits bytes

-- The position of the first clear bit.
abbrev pub first_false : List Bool → Option ℕ
first_false [] = none
first_false (false ∷ bs) = some 0
first_false (true ∷ bs) = elim (first_false bs) [ none ↦ none | some i ↦ some (suc i) ]
