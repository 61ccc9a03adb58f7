-- ===== src/Vga/Colors.antt =====
-- src/vga_buffer.rs: `Color`, `ColorCode` and `ScreenChar`.
use native.Mathlib.Decide.{ℕ_discrete}
use blog_os.Base.{
  ℕ, ◌+◌, ◌*◌, ◌/◌, ◌%◌, ◌^◌, ◌<◌, ◌≡◌, arith, bit_or, zero, suc, Bool, true, false, if◌then◌else◌,
  Bool-cases, inl, inr, ◌==◌, ==_iff, refl,
}

pub data Color : Type 0 where
  black : Color
  blue : Color
  green : Color
  cyan : Color
  red : Color
  magenta : Color
  brown : Color
  light_gray : Color
  dark_gray : Color
  light_blue : Color
  light_green : Color
  light_cyan : Color
  light_red : Color
  pink : Color
  yellow : Color
  white : Color

-- `color as u8`
abbrev pub color_as_u8 : Color → ℕ
color_as_u8 black = 0
color_as_u8 blue = 1
color_as_u8 green = 2
color_as_u8 cyan = 3
color_as_u8 red = 4
color_as_u8 magenta = 5
color_as_u8 brown = 6
color_as_u8 light_gray = 7
color_as_u8 dark_gray = 8
color_as_u8 light_blue = 9
color_as_u8 light_green = 10
color_as_u8 light_cyan = 11
color_as_u8 light_red = 12
color_as_u8 pink = 13
color_as_u8 yellow = 14
color_as_u8 white = 15

pub record ColorCode : Type 0 where
  pub value : ℕ

-- `ColorCode::new`; the shift of a `u8` drops the bits that leave it.
unfoldable pub color_code_new : Color → Color → ColorCode
color_code_new foreground background = record {
  value = bit_or (color_as_u8 background * 16 % 2 ^ 8) (color_as_u8 foreground);
}

pub record ScreenChar : Type 0 where
  pub ascii_character : ℕ
  pub color_code : ColorCode

color_as_u8-lt : (c : Color) → color_as_u8 c < 16
color_as_u8-lt black = omega arith
color_as_u8-lt blue = omega arith
color_as_u8-lt green = omega arith
color_as_u8-lt cyan = omega arith
color_as_u8-lt red = omega arith
color_as_u8-lt magenta = omega arith
color_as_u8-lt brown = omega arith
color_as_u8-lt light_gray = omega arith
color_as_u8-lt dark_gray = omega arith
color_as_u8-lt light_blue = omega arith
color_as_u8-lt light_green = omega arith
color_as_u8-lt light_cyan = omega arith
color_as_u8-lt light_red = omega arith
color_as_u8-lt pink = omega arith
color_as_u8-lt yellow = omega arith
color_as_u8-lt white = omega arith

-- A test that holds at every number below a bound.
abbrev all_below : ℕ → (ℕ → Bool) → Bool
all_below zero p = true
all_below (suc n) p = if p n then all_below n p else false

all_below_lem : (n : ℕ) (p : ℕ → Bool) (i : ℕ) → all_below n p ≡ true → i < n → p i ≡ true
all_below_lem zero p i h k = absurd (omega arith)
all_below_lem (suc n) p i h k = elim (Bool-cases (p n)) [
  | inr fails ↦ absurd (ground (arith, h, fails))
  | inl holds ↦ elim (ℕ_discrete i n) [
    | yes e ↦ rw e holds
    | no apart ↦ all_below_lem n p i (ground (arith, h, holds)) (omega arith)
  ]
]

nibbles_test : all_below 256 (λ i. bit_or (i / 16 * 16 % 256) (i % 16) == i) ≡ true
nibbles_test = refl

nibbles : (a b : ℕ) → a < 16 → b < 16 → bit_or (a * 16 % 256) b ≡ a * 16 + b
nibbles a b ha hb =
    let t =
      all_below_lem 256 (λ i. bit_or (i / 16 * 16 % 256) (i % 16) == i) (a * 16 + b) nibbles_test
        (omega arith) in
    let high : (a * 16 + b) / 16 ≡ a = omega arith in
    let low : (a * 16 + b) % 16 ≡ b = omega arith in
    (==_iff (bit_or (a * 16 % 256) b) (a * 16 + b)).0 (rw (high, low) at t)

-- The two nibbles of a color code are its colors' numbers, and the code is a byte.
pub color_code_new_lem :
    (fg bg : Color)
    → ((color_code_new fg bg).value < 256)
      × ((color_code_new fg bg).value % 16 ≡ color_as_u8 fg)
      × ((color_code_new fg bg).value / 16 ≡ color_as_u8 bg)
unfolding color_code_new
color_code_new_lem fg bg =
    let n = nibbles (color_as_u8 bg) (color_as_u8 fg) (color_as_u8-lt bg) (color_as_u8-lt fg) in
    let b = color_as_u8-lt bg in
    let f = color_as_u8-lt fg in
    (omega (arith, n, b, f), omega (arith, n, b, f), omega (arith, n, b, f))
