-- ===== src/Base/Joins.antt =====
-- `|` of numbers without a common bit, as a sum.
use Prim.Native.Nat.{digits, bit_or-bitwise}
use native.Mathlib.Nat.{pow-suc}
use Prim.Native.Nat.{ℕ, zero, suc, ◌+◌, ◌*◌, ◌/◌, ◌%◌, ◌^◌, ◌≤◌, ◌<◌, max, bit_or}
use mathlib.Core.Path.{◌≡◌, refl, ap}
use native.Mathlib.Omega.{arith}

-- The digits of `a | b`, where `fuel` bounds the number of digits of `a`.
abbrev or_by : (fuel a b : ℕ) → ℕ
or_by fuel a b = digits (λ rest. rest) max fuel a b

or_by-zero : (fuel b : ℕ) → or_by fuel 0 b ≡ b
or_by-zero zero b = refl
or_by-zero (suc fuel) b = refl

-- More fuel than digits changes nothing.
or_by-enough : (f g a b : ℕ) → a ≤ f → a ≤ g → or_by f a b ≡ or_by g a b
or_by-enough zero g zero b p q = omega (arith, or_by-zero g b)
or_by-enough zero g (suc a) b p q = absurd (omega arith)
or_by-enough (suc f) g zero b p q = omega (arith, or_by-zero g b)
or_by-enough (suc f) zero (suc a) b p q = absurd (omega arith)
or_by-enough (suc f) (suc g) (suc a) b p q =
    omega (arith, or_by-enough f g (suc a / 2) (b / 2) (omega arith) (omega arith))

-- The lowest digit of `a | b`, and the others.
lowest_digit : (a b : ℕ) → bit_or a b ≡ bit_or (a / 2) (b / 2) * 2 + max (a % 2) (b % 2)
lowest_digit zero b = omega (arith, bit_or-bitwise 0 b, bit_or-bitwise 0 (b / 2))
lowest_digit (suc a) b = omega (
  arith,
  bit_or-bitwise (suc a) b,
  bit_or-bitwise (suc a / 2) (b / 2),
  or_by-enough a (suc a / 2) (suc a / 2) (b / 2) (omega arith) (omega arith),
)

bit_or-zero : (fuel a : ℕ) → a ≤ fuel → bit_or a 0 ≡ a
bit_or-zero zero zero h = refl
bit_or-zero zero (suc a) h = absurd (omega arith)
bit_or-zero (suc fuel) zero h = refl
bit_or-zero (suc fuel) (suc a) h =
    omega (arith, lowest_digit (suc a) 0, bit_or-zero fuel (suc a / 2) (omega arith))

-- High bits, and lower ones on the right.
pub bit_or_low : (k a b : ℕ) → b < 2 ^ k → bit_or (a * 2 ^ k) b ≡ a * 2 ^ k + b
bit_or_low zero a b h =
    let none_left : b ≡ 0 = omega arith in
    let whole : a * 2 ^ 0 ≡ a = omega arith in
    rw (none_left, whole) (omega (arith, bit_or-zero a a (omega arith)))
bit_or_low (suc k) a b h =
    let double : a * 2 ^ suc k ≡ a * 2 ^ k * 2 = omega (arith, ap (λ p. a * p) (pow-suc 2 k)) in
    let half : a * 2 ^ suc k / 2 ≡ a * 2 ^ k = omega (arith, double) in
    let even : a * 2 ^ suc k % 2 ≡ 0 = omega (arith, double) in
    let rest = bit_or_low k a (b / 2) (omega (arith, pow-suc 2 k)) in
    let digit = rw (half, even) at (lowest_digit (a * 2 ^ suc k) b) in
    omega (arith, digit, rest, double)

-- High bits on the right.
pub bit_or_high : (k a b : ℕ) → b < 2 ^ k → bit_or b (a * 2 ^ k) ≡ b + a * 2 ^ k
bit_or_high zero a b h =
    let none_left : b ≡ 0 = omega arith in
    rw none_left (omega (arith, bit_or-bitwise 0 (a * 2 ^ 0)))
bit_or_high (suc k) a b h =
    let double : a * 2 ^ suc k ≡ a * 2 ^ k * 2 = omega (arith, ap (λ p. a * p) (pow-suc 2 k)) in
    let half : a * 2 ^ suc k / 2 ≡ a * 2 ^ k = omega (arith, double) in
    let even : a * 2 ^ suc k % 2 ≡ 0 = omega (arith, double) in
    let rest = bit_or_high k a (b / 2) (omega (arith, pow-suc 2 k)) in
    let digit = rw (half, even) at (lowest_digit b (a * 2 ^ suc k)) in
    omega (arith, digit, rest, double)
