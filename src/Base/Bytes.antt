-- ===== src/Base/Bytes.antt =====
-- Bytes: the operators of `u8` on one bit, as tables that are checked by evaluation.
use blog_os.Base.{
  ℕ, zero, suc, ◌-◌, ◌%◌, ◌^◌, ◌<◌, ◌≡◌, refl, bit_and, bit_or, Bool, true, false, ◌&&◌, not, List,
  [], ◌∷◌, arith, ◌==◌, ltb, ltb→lt, set, replicate,
}

abbrev pub IsByte : ℕ → Type 0
IsByte b = b < 256

-- `1 << k` on a `u8`, for a shift below 8
abbrev pub shl_one : ℕ → ℕ
shl_one k = 2 ^ k % 2 ^ 8

-- `!b` on a `u8`
abbrev pub not_u8 : ℕ → ℕ
not_u8 b = 255 - b

-- `(b & (1 << k)) != 0`
abbrev pub bit_test : ℕ → ℕ → Bool
bit_test b k = not (bit_and b (shl_one k) == 0)

-- The bits of a byte, lowest first.
unfoldable pub byte_bits : ℕ → List Bool
byte_bits b =
    bit_test b 0
    ∷ bit_test b 1
    ∷ bit_test b 2
    ∷ bit_test b 3
    ∷ bit_test b 4
    ∷ bit_test b 5
    ∷ bit_test b 6
    ∷ bit_test b 7
    ∷ []

unfoldable pub all_below : ℕ → (ℕ → Bool) → Bool
all_below zero p = true
all_below (suc n) p = p n && all_below n p

pub all_below_sound : (n : ℕ) (p : ℕ → Bool) → all_below n p ≡ true → (x : ℕ) → x < n → p x ≡ true
unfolding all_below
all_below_sound zero p h x lt = absurd (omega arith)
all_below_sound (suc n) p h x lt = ground (arith, all_below_sound n p (ground arith) x)

same : Bool → Bool → Bool
same true b = b
same false b = not b

same_all : List Bool → List Bool → Bool
unfolding same
same_all [] [] = true
same_all [] (y ∷ ys) = false
same_all (x ∷ xs) [] = false
same_all (x ∷ xs) (y ∷ ys) = same x y && same_all xs ys

same_all-eq : (xs ys : List Bool) → same_all xs ys ≡ true → xs ≡ ys
unfolding same_all
same_all-eq [] [] h = refl
same_all-eq [] (y ∷ ys) h = cc
same_all-eq (x ∷ xs) [] h = cc
same_all-eq (x ∷ xs) (y ∷ ys) h = ground (arith, same_all-eq xs ys)

-- Two functions on a byte and a bit number agree, once a table says so.
table :
    (f g : ℕ → ℕ → List Bool)
    → all_below 256 (λ b. all_below 8 (λ k. same_all (f b k) (g b k))) ≡ true
    → (b k : ℕ) → b < 256
    → k < 8
    → f b k ≡ g b k
table f g h b k hb hk = same_all-eq _ _ (all_below_sound 8 _ (all_below_sound 256 _ h b hb) k hk)

pub byte_bits-or :
    (b k : ℕ) → b < 256 → k < 8 → byte_bits (bit_or b (shl_one k)) ≡ set (byte_bits b) k true
unfolding all_below same_all byte_bits
byte_bits-or = table _ _ refl

pub byte_bits-and_not :
    (b k : ℕ)
    → b < 256
    → k < 8
    → byte_bits (bit_and b (not_u8 (shl_one k))) ≡ set (byte_bits b) k false
unfolding all_below same_all byte_bits
byte_bits-and_not = table _ _ refl

range_table :
    (f : ℕ → ℕ → ℕ)
    → all_below 256 (λ b. all_below 8 (λ k. ltb (f b k) 256)) ≡ true
    → (b k : ℕ) → b < 256
    → k < 8
    → f b k < 256
range_table f h b k hb hk = ltb→lt _ _ (all_below_sound 8 _ (all_below_sound 256 _ h b hb) k hk)

pub or-lt : (b k : ℕ) → b < 256 → k < 8 → bit_or b (shl_one k) < 256
unfolding all_below
or-lt = range_table _ refl

pub and_not-lt : (b k : ℕ) → b < 256 → k < 8 → bit_and b (not_u8 (shl_one k)) < 256
unfolding all_below
and_not-lt = range_table _ refl

pub byte_bits_full : byte_bits 255 ≡ replicate 8 true
unfolding byte_bits
byte_bits_full = refl

pub byte_bits_zero : byte_bits 0 ≡ replicate 8 false
unfolding byte_bits
byte_bits_zero = refl
