-- ===== src/Fs/Layout/Bitmaps/Preservation.antt =====
-- The operations of `Bitmap` keep the number of bytes, and bytes stay bytes.
use blog_os.Base.{
  sym, ap, ◌∙◌, List, Option, none, some, set, Bool, true, done-injective, ℕ, ◌/◌, ◌%◌, ◌≡◌, Option,
  none, some, get_elem?, length, All, bit_or, bit_and, arith, length-set, All-set, All-get_elem?,
  done, Result, Option-cases, Exec-cases, inl, inr, ◌+◌, ◌*◌,
}
use blog_os.Base.Bytes.{IsByte, shl_one, not_u8, or-lt, and_not-lt}
use blog_os.Fs.Layout.Bitmaps.Bits.{
  Bitmap, BitmapError, set_bit, clear_bit, take_bit, find_and_set_first_free, first_false, bits,
}
use blog_os.Fs.Layout.Bitmaps.Abs
use blog_os.Fs.Layout.Bitmaps.Laws.{view}
use blog_os.Fs.Layout.Bitmaps.Search.{find_and_set_first_free_refines, found, find_loop_lem}

-- `map'` may take the place of `map`.
pub record Keeps (map map' : Bitmap) : Type 0 where
  pub size : length map' ≡ length map
  pub bytes : All IsByte map'

module _ (map : Bitmap) (h : All IsByte map) (idx : ℕ) where
  pub set_bit-Keeps :
      {r : Result BitmapError (Unit {0})} {map' : Bitmap}
      → set_bit map idx ≡ done (r, map')
      → Keeps map map'
  unfolding set_bit
  set_bit-Keeps e = elim (Option-cases (get_elem? map (idx / 8))) [
    | inl none_at ↦ ground arith
    | inr (b, at) ↦ ground (
      arith,
      length-set map (idx / 8) (bit_or b (shl_one (idx % 8))),
      All-set IsByte map (idx / 8) (bit_or b (shl_one (idx % 8))) h
          (or-lt b (idx % 8) (All-get_elem? IsByte map (idx / 8) h at) (omega arith)),
    )
  ]

  pub clear_bit-Keeps :
      {r : Result BitmapError (Unit {0})} {map' : Bitmap}
      → clear_bit map idx ≡ done (r, map')
      → Keeps map map'
  unfolding clear_bit
  clear_bit-Keeps e = elim (Option-cases (get_elem? map (idx / 8))) [
    | inl none_at ↦ ground arith
    | inr (b, at) ↦ ground (
      arith,
      length-set map (idx / 8) (bit_and b (not_u8 (shl_one (idx % 8)))),
      All-set IsByte map (idx / 8) (bit_and b (not_u8 (shl_one (idx % 8)))) h
          (and_not-lt b (idx % 8) (All-get_elem? IsByte map (idx / 8) h at) (omega arith)),
    )
  ]

found-Keeps :
    (map : Bitmap) (i : ℕ) (o : Option ℕ) {r : Option ℕ} {map' : Bitmap}
    → All IsByte map
    → found map i o ≡ done (r, map')
    → Keeps map map'
unfolding found take_bit
found-Keeps map i none h e = ground arith
found-Keeps map i (some k) {r} {map'} h e = elim (Exec-cases (set_bit map (i * 8 + k))) [
  | inl stuck ↦ ground arith
  | inr ((u, m), at) ↦ ground (arith, set_bit-Keeps map h (i * 8 + k) at)
]

pub find_and_set_first_free-Keeps :
    (map : Bitmap) {r : Option ℕ} {map' : Bitmap}
    → All IsByte map
    → find_and_set_first_free map ≡ done (r, map')
    → Keeps map map'
unfolding find_and_set_first_free
find_and_set_first_free-Keeps map h e =
    found-Keeps map 0 (first_false (bits map)) h (rw (find_loop_lem map map 0) at e)

-- With a clear bit, the search returns the first and sets it.
pub find_and_set_first_free-some :
    (map : Bitmap) (i : ℕ)
    → All IsByte map
    → first_false (bits map) ≡ some i
    → (map' : Bitmap) × (find_and_set_first_free map ≡ done (some i, map'))
      × (bits map' ≡ set (bits map) i true)
      × Keeps map map'
find_and_set_first_free-some map i h e = elim (Exec-cases (find_and_set_first_free map)) [
  | inl stuck ↦ absurd (cc (refines, stuck))
  | inr ((r, map'), at) ↦
      let here : view (find_and_set_first_free map) ≡ done (r, bits map') = rw at in
      let same : ◌≡◌ {A = Option ℕ × List Bool} (r, bits map') (some i, set (bits map) i true) =
        done-injective _ _ (sym here ∙ refines) in
      (
        map',
        at ∙ ap (λ o. done (o, map')) (ap (λ q. q.0) same),
        ap (λ q. q.1) same,
        find_and_set_first_free-Keeps map h at,
      )
]
  where
    refines : view (find_and_set_first_free map) ≡ done (some i, set (bits map) i true)
    refines = find_and_set_first_free_refines map h ∙ (unfold Abs.find_and_set_first_free in rw e)

-- With every bit set, it returns nothing and changes nothing.
pub find_and_set_first_free-none :
    (map : Bitmap) → first_false (bits map) ≡ none → find_and_set_first_free map ≡ done (none, map)
unfolding find_and_set_first_free found
find_and_set_first_free-none map e = rw (find_loop_lem map map 0, e)
