-- ===== src/Fs/Layout/Bitmaps/Abs.antt =====
-- The contract of `Bitmap`: what each of its operations does to a list of bits.
use blog_os.Base.{
  ℕ, List, Option, none, some, get_elem?, set, if◌then◌else◌, Bool, true, false, Exec, done, ◌>>=◌,
  expect, Result, ok, err,
}
use blog_os.Fs.Layout.Bitmaps.Bits.{BitmapError, already_allocated, already_cleared, first_false}

unfoldable pub is_set : List Bool → ℕ → Exec Bool
is_set bs idx = expect (get_elem? bs idx)

unfoldable pub set_bit : List Bool → ℕ → Exec (Result BitmapError (Unit {0}) × List Bool)
set_bit bs idx = do
  used ← expect (get_elem? bs idx)
  done (if used then (err already_allocated, bs) else (ok tt, set bs idx true))

unfoldable pub clear_bit : List Bool → ℕ → Exec (Result BitmapError (Unit {0}) × List Bool)
clear_bit bs idx = do
  used ← expect (get_elem? bs idx)
  done (if used then (ok tt, set bs idx false) else (err already_cleared, bs))

unfoldable pub find_and_set_first_free : List Bool → Exec (Option ℕ × List Bool)
find_and_set_first_free bs =
    done (elim (first_false bs) [ none ↦ (none, bs) | some i ↦ (some i, set bs i true) ])
