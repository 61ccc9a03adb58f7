-- ===== src/Fs/Layout/Bitmaps/Laws.antt =====
-- How the operations of `Bitmap` act on the list of bits.
use blog_os.Base.{
  ℕ, zero, suc, ◌+◌, ◌*◌, ◌/◌, ◌%◌, ◌<◌, ◌≡◌, refl, ap, sym, ◌∙◌, List, [], ◌∷◌, ◌++◌, none, some,
  get_elem?, set, length, All, bit_or, bit_and, Bool, true, false, arith, set-append,
  get_elem?-append, All-get_elem?, Exec, done, ◌>>=◌, Option-cases, inl, inr,
}
use blog_os.Base.Bytes.{
  IsByte, shl_one, not_u8, bit_test, byte_bits, byte_bits-or, byte_bits-and_not,
}
use blog_os.Fs.Layout.Bitmaps.Abs
use blog_os.Fs.Layout.Bitmaps.Bits.{Bitmap, is_set, set_bit, clear_bit, bits}

-- The outcome of an operation with its new bytes read as bits.
abbrev pub view {ℓ} : {R : Type ℓ} → Exec (R × Bitmap) → Exec (R × List Bool)
view r = do (a, map) ← r; done (a, bits map)

get_byte_bits : (b r : ℕ) → r < 8 → get_elem? (byte_bits b) r ≡ some (bit_test b r)
unfolding byte_bits
get_byte_bits b zero h = refl
get_byte_bits b (suc zero) h = refl
get_byte_bits b (suc (suc zero)) h = refl
get_byte_bits b (suc (suc (suc zero))) h = refl
get_byte_bits b (suc (suc (suc (suc zero)))) h = refl
get_byte_bits b (suc (suc (suc (suc (suc zero))))) h = refl
get_byte_bits b (suc (suc (suc (suc (suc (suc zero)))))) h = refl
get_byte_bits b (suc (suc (suc (suc (suc (suc (suc zero))))))) h = refl
get_byte_bits b (suc (suc (suc (suc (suc (suc (suc (suc r)))))))) h = absurd (omega arith)

pub length-byte_bits : (b : ℕ) → length (byte_bits b) ≡ 8
unfolding byte_bits
length-byte_bits b = refl

-- The index of bit `r` of byte `q + 1`, one constructor for each bit that is passed over.
next_byte : (q r : ℕ) → suc q * 8 + r ≡ suc (suc (suc (suc (suc (suc (suc (suc (q * 8 + r))))))))
next_byte q r = omega arith

get_past :
    (b : ℕ) (xs : List Bool) (n : ℕ)
    → get_elem? (byte_bits b ++ xs) (suc (suc (suc (suc (suc (suc (suc (suc n))))))))
      ≡ get_elem? xs n
unfolding byte_bits
get_past b xs n = refl

set_past :
    (b : ℕ) (xs : List Bool) (n : ℕ) (x : Bool)
    → set (byte_bits b ++ xs) (suc (suc (suc (suc (suc (suc (suc (suc n)))))))) x
      ≡ byte_bits b ++ set xs n x
unfolding byte_bits
set_past b xs n x = refl

get-bits-at :
    (map : Bitmap) (q r : ℕ)
    → r < 8
    → get_elem? (bits map) (q * 8 + r)
      ≡ elim (get_elem? map q) [ none ↦ none | some b ↦ some (bit_test b r) ]
unfolding bits
get-bits-at [] q r h = refl
get-bits-at (b ∷ bs) zero r h =
    let e : zero * 8 + r ≡ r = omega arith in
    rw e (
      get_elem?-append (byte_bits b) (bits bs) r (omega (arith, length-byte_bits b))
      ∙ get_byte_bits b r h)
get-bits-at (b ∷ bs) (suc q) r h =
    rw (next_byte q r) (get_past b (bits bs) _ ∙ get-bits-at bs q r h)

set-bits-at :
    (map : Bitmap) (q r b v : ℕ) (x : Bool)
    → r < 8
    → get_elem? map q ≡ some b
    → byte_bits v ≡ set (byte_bits b) r x
    → bits (set map q v) ≡ set (bits map) (q * 8 + r) x
unfolding bits
set-bits-at [] q r b v x h e k = cc
set-bits-at (c ∷ bs) zero r b v x h e k =
    let e0 : zero * 8 + r ≡ r = omega arith in
    let same : c ≡ b = cc in
    rw (e0, set-append (byte_bits c) (bits bs) r x (omega (arith, length-byte_bits c)), same, k)
set-bits-at (c ∷ bs) (suc q) r b v x h e k = rw (next_byte q r) (
    ap (λ ys. byte_bits c ++ ys) (set-bits-at bs q r b v x h e k)
    ∙ sym (set_past c (bits bs) (q * 8 + r) x))

module _ (map : Bitmap) (idx : ℕ) where
  get-bits :
      get_elem? (bits map) idx
      ≡ elim (get_elem? map (idx / 8)) [ none ↦ none | some b ↦ some (bit_test b (idx % 8)) ]
  get-bits =
      let e : idx ≡ idx / 8 * 8 + idx % 8 = omega arith in
      ap (λ i. get_elem? (bits map) i) e ∙ get-bits-at map (idx / 8) (idx % 8) (omega arith)

  set-bits :
      (b v : ℕ) (x : Bool)
      → get_elem? map (idx / 8) ≡ some b
      → byte_bits v ≡ set (byte_bits b) (idx % 8) x
      → bits (set map (idx / 8) v) ≡ set (bits map) idx x
  set-bits b v x h k =
      let e : idx / 8 * 8 + idx % 8 ≡ idx = omega arith in
      set-bits-at map (idx / 8) (idx % 8) b v x (omega arith) h k ∙ ap (λ i. set (bits map) i x) e

  -- `is_set` reads the bit at its index, and panics where there is none.
  pub is_set_refines : is_set map idx ≡ Abs.is_set (bits map) idx
  unfolding is_set Abs.is_set
  is_set_refines = elim (Option-cases (get_elem? map (idx / 8))) [
    | inl e ↦ rw (get-bits, e)
    | inr (b, e) ↦ rw (get-bits, e)
  ]

  -- `set` sets a clear bit and no other, refuses a set one and panics out of bounds.
  pub set_bit_refines : All IsByte map → view (set_bit map idx) ≡ Abs.set_bit (bits map) idx
  unfolding set_bit Abs.set_bit
  set_bit_refines h = elim (Option-cases (get_elem? map (idx / 8))) [
    | inl e ↦ rw (get-bits, e)
    | inr (b, e) ↦ ground (
      arith,
      get-bits,
      set-bits b (bit_or b (shl_one (idx % 8))) true e
          (byte_bits-or b (idx % 8) (All-get_elem? IsByte map (idx / 8) h e) (omega arith)),
    )
  ]

  -- `clear` clears a set bit and no other, refuses a clear one and panics out of bounds.
  pub clear_bit_refines : All IsByte map → view (clear_bit map idx) ≡ Abs.clear_bit (bits map) idx
  unfolding clear_bit Abs.clear_bit
  clear_bit_refines h = elim (Option-cases (get_elem? map (idx / 8))) [
    | inl e ↦ rw (get-bits, e)
    | inr (b, e) ↦ ground (
      arith,
      get-bits,
      set-bits b (bit_and b (not_u8 (shl_one (idx % 8)))) false e
          (byte_bits-and_not b (idx % 8) (All-get_elem? IsByte map (idx / 8) h e) (omega arith)),
    )
  ]
