-- ===== src/Base/Words.antt =====
-- `usize` and `u64` arithmetic. The kernel is built in the dev profile, where an overflow of `+`
-- or `-` panics.
use native.Mathlib.Nat.{one-le-pow, div-add-mod', mod-lt, mul-mod_left}
use native.Mathlib.Decide.{dec_lt}
use blog_os.Base.{
  ℕ, ◌+◌, ◌-◌, ◌*◌, ◌/◌, ◌%◌, ◌^◌, ◌≤◌, ◌<◌, ◌≡◌, bit_and, arith, ltb, leb, if◌then◌else◌, Exec,
  done, panic, Option, none, some,
}
use blog_os.Base.Masks.{bit_and_high}

abbrev pub usize_mod : ℕ
usize_mod = 2 ^ 64

abbrev pub add_usize : ℕ → ℕ → Exec ℕ
add_usize a b = if ltb (a + b) usize_mod then done (a + b) else panic

abbrev pub sub_usize : ℕ → ℕ → Exec ℕ
sub_usize a b = if leb b a then done (a - b) else panic

abbrev pub checked_add : ℕ → ℕ → Option ℕ
checked_add a b = if ltb (a + b) usize_mod then some (a + b) else none

-- `!a`
abbrev pub not_usize : ℕ → ℕ
not_usize a = usize_mod - 1 - a

-- A power of two that fits a `usize`.
pub record IsPowerOfTwo (a : ℕ) : Type 0 where
  pub exponent : ℕ
  pub small : exponent < 64
  pub power : a ≡ 2 ^ exponent

-- `a & !(align - 1)` rounds down to a multiple of `align`.
pub round_down :
    (a align : ℕ)
    → IsPowerOfTwo align
    → a < usize_mod
    → bit_and a (not_usize (align - 1)) ≡ a / align * align
round_down a align p h =
    let k : ℕ = p.exponent in
    let w : ℕ = 64 - k in
    let whole : k + w ≡ 64 = omega (arith, p.small) in
    let pos : 1 ≤ 2 ^ k = one-le-pow k 2 (omega arith) in
    let mask : not_usize (2 ^ k - 1) ≡ 2 ^ 64 - 2 ^ k = omega arith in
    let high : bit_and a (2 ^ 64 - 2 ^ k) ≡ a / 2 ^ k * 2 ^ k =
      rw whole at (bit_and_high k w a (rw whole h)) in
    rw (p.power, mask) high

-- The multiple of `align` that rounding down gives, and how near it is.
pub round_down_bounds :
    (a align : ℕ)
    → 0 < align
    → (a / align * align ≤ a) × (a < a / align * align + align) × (a / align * align % align ≡ 0)
round_down_bounds a align h = (
  omega (arith, div-add-mod' a align),
  omega (arith, div-add-mod' a align, mod-lt a h),
  mul-mod_left (a / align) align,
)

pub IsPowerOfTwo-pos : {a : ℕ} → IsPowerOfTwo a → 0 < a
IsPowerOfTwo-pos p = rw p.power (one-le-pow p.exponent 2 (omega arith))

-- Two sums that do not overflow.
pub add_usize-done : (a b : ℕ) → a + b < usize_mod → add_usize a b ≡ done (a + b)
add_usize-done a b h = ground arith

pub sub_usize-done : (a b : ℕ) → b ≤ a → sub_usize a b ≡ done (a - b)
sub_usize-done a b h = ground arith

-- Two multiples of `a` that are less than `a` apart are the same.
pub multiples_apart : (a x y : ℕ) → x % a ≡ 0 → y % a ≡ 0 → x ≤ y → y < x + a → x ≡ y
multiples_apart a x y hx hy le lt = elim (dec_lt (x / a) (y / a)) [
  | yes below ↦ absurd (grind (arith, div-add-mod' x a, div-add-mod' y a))
  | no same ↦ grind (arith, div-add-mod' x a, div-add-mod' y a)
]
