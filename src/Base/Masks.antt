-- ===== src/Base/Masks.antt =====
-- `&` with the mask that keeps the bits from `k` on, as arithmetic, at every width.
use Prim.Native.Nat.{digits, bit_and-bitwise}
use native.Mathlib.Nat.{pow-suc, one-le-pow, div-div-eq-div-mul, pow-succ'}
use blog_os.Base.{
  ℕ, zero, suc, ◌+◌, ◌-◌, ◌*◌, ◌/◌, ◌%◌, ◌^◌, ◌≤◌, ◌<◌, ◌≡◌, refl, sym, ap, ◌∙◌, min, bit_and,
  arith,
}

-- The digits of `a & b`, where `fuel` bounds the number of digits of `a`.
abbrev and_by : (fuel a b : ℕ) → ℕ
and_by fuel a b = digits (λ rest. 0) min fuel a b

and_by-zero : (fuel b : ℕ) → and_by fuel 0 b ≡ 0
and_by-zero zero b = refl
and_by-zero (suc fuel) b = refl

-- More fuel than digits changes nothing.
and_by-enough : (f g a b : ℕ) → a ≤ f → a ≤ g → and_by f a b ≡ and_by g a b
and_by-enough zero g zero b p q = sym (and_by-zero g b)
and_by-enough zero g (suc a) b p q = absurd (omega arith)
and_by-enough (suc f) g zero b p q = sym (and_by-zero g b)
and_by-enough (suc f) zero (suc a) b p q = absurd (omega arith)
and_by-enough (suc f) (suc g) (suc a) b p q =
    omega (arith, and_by-enough f g (suc a / 2) (b / 2) (omega arith) (omega arith))

-- The lowest digit of `a & b`, and the others.
lowest_digit : (a b : ℕ) → bit_and a b ≡ bit_and (a / 2) (b / 2) * 2 + min (a % 2) (b % 2)
lowest_digit zero b = omega (arith, bit_and-bitwise 0 b, bit_and-bitwise 0 (b / 2))
lowest_digit (suc a) b = omega (
  arith,
  bit_and-bitwise (suc a) b,
  bit_and-bitwise (suc a / 2) (b / 2),
  and_by-enough a (suc a / 2) (suc a / 2) (b / 2) (omega arith) (omega arith),
)

-- A mask of ones keeps every bit.
bit_and-ones : (w t : ℕ) → t < 2 ^ w → bit_and t (2 ^ w - 1) ≡ t
bit_and-ones zero t h = let e : t ≡ 0 = omega arith in rw e refl
bit_and-ones (suc w) t h =
    let p : 2 ^ suc w ≡ 2 ^ w * 2 = pow-suc 2 w in
    let pos : 1 ≤ 2 ^ w = one-le-pow w 2 (omega arith) in
    let half : (2 ^ suc w - 1) / 2 ≡ 2 ^ w - 1 = omega arith in
    let odd : (2 ^ suc w - 1) % 2 ≡ 1 = omega arith in
    let ih : bit_and (t / 2) (2 ^ w - 1) ≡ t / 2 = bit_and-ones w (t / 2) (omega arith) in
    let step : bit_and t (2 ^ suc w - 1)
        ≡ bit_and (t / 2) ((2 ^ suc w - 1) / 2) * 2 + min (t % 2) ((2 ^ suc w - 1) % 2) =
      lowest_digit t (2 ^ suc w - 1) in
    let step' : bit_and t (2 ^ suc w - 1) ≡ bit_and (t / 2) (2 ^ w - 1) * 2 + min (t % 2) 1 =
      rw (half, odd) at step in
    omega arith

-- A mask without its `k` lowest ones rounds down to a multiple of `2 ^ k`.
pub bit_and_high :
    (k w t : ℕ) → t < 2 ^ (k + w) → bit_and t (2 ^ (k + w) - 2 ^ k) ≡ t / 2 ^ k * 2 ^ k
bit_and_high zero w t h =
    let e : zero + w ≡ w = omega arith in rw e (bit_and-ones w t (rw e at h) ∙ omega arith)
bit_and_high (suc k) w t h =
    let n : ℕ = k + w in
    let e : suc k + w ≡ suc (k + w) = omega arith in
    let big : 2 ^ suc (k + w) ≡ 2 ^ (k + w) * 2 = pow-suc 2 (k + w) in
    let small : 2 ^ suc k ≡ 2 ^ k * 2 = pow-suc 2 k in
    let mask : ℕ = 2 ^ suc (k + w) - 2 ^ suc k in
    let half : mask / 2 ≡ 2 ^ (k + w) - 2 ^ k = omega arith in
    let even : mask % 2 ≡ 0 = omega arith in
    let fits : t < 2 ^ suc (k + w) = rw e at h in
    let ih : bit_and (t / 2) (2 ^ (k + w) - 2 ^ k) ≡ t / 2 / 2 ^ k * 2 ^ k =
      bit_and_high k w (t / 2) (omega arith) in
    let step : bit_and t mask ≡ bit_and (t / 2) (2 ^ (k + w) - 2 ^ k) * 2 + min (t % 2) 0 =
      rw (half, even) at (lowest_digit t mask) in
    let quot : t / 2 / 2 ^ k ≡ t / 2 ^ suc k =
      div-div-eq-div-mul t 2 (2 ^ k) ∙ ap (λ d. t / d) (sym (pow-succ' 2 k)) in
    rw e (omega (arith, ap (λ q. q * 2 ^ k) quot, ap (λ d. t / 2 ^ suc k * d) small))
