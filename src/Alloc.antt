-- ===== src/Alloc.antt =====
-- src/allocator.rs and src/allocator/: the heap allocators.
pub mod Layouts
pub mod Blocks
pub mod Bump
pub mod LinkedList
pub mod FixedSize
pub mod Start
use blog_os.Base.{
  ℕ, ◌+◌, ◌-◌, ◌*◌, ◌/◌, ◌%◌, ◌^◌, ◌≤◌, ◌<◌, ◌≡◌, bit_and, arith, Exec, done, sym, ap, ◌∙◌, ◌>>=◌,
}
use blog_os.Base.Words.{
  usize_mod, add_usize, sub_usize, not_usize, IsPowerOfTwo, round_down, round_down_bounds,
  IsPowerOfTwo-pos, multiples_apart,
}

-- A raw pointer is its address; `null_mut()` is 0.
abbrev pub null : ℕ
null = 0

unfoldable pub align_up : ℕ → ℕ → Exec ℕ
align_up addr align = do
  s ← add_usize addr align
  t ← sub_usize s 1
  m ← sub_usize align 1
  done (bit_and t (not_usize m))

-- The least multiple of `align` at or above `addr`: within `align` of it.
pub align_up_lem :
    (addr align : ℕ)
    → IsPowerOfTwo align
    → addr + align < usize_mod
    → (r : ℕ) × (align_up addr align ≡ done r) × (addr ≤ r) × (r < addr + align) × (r % align ≡ 0)
unfolding align_up
align_up_lem addr align p h =
    let t : ℕ = addr + align - 1 in
    let pos : 0 < align = IsPowerOfTwo-pos p in
    let b = round_down_bounds t align pos in
    (
      t / align * align,
      ground (arith, round_down t align p (omega arith)),
      omega (arith, b.1),
      omega (arith, b.0),
      b.2,
    )

-- An address that is aligned stays.
pub align_up_aligned :
    (addr align : ℕ)
    → IsPowerOfTwo align
    → addr + align < usize_mod
    → addr % align ≡ 0
    → align_up addr align ≡ done addr
align_up_aligned addr align p h e =
    let (r, eq, lo, hi, al) = align_up_lem addr align p h in
    eq ∙ ap done (sym (multiples_apart align addr r e al lo hi))
