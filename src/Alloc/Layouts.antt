-- ===== src/Alloc/Layouts.antt =====
-- `core::alloc::Layout`: a size and an alignment.
use blog_os.Base.{
  ℕ, ◌+◌, ◌-◌, ◌*◌, ◌/◌, ◌%◌, ◌^◌, ◌≤◌, ◌<◌, ◌≡◌, max, leb, if◌then◌else◌, Option, none, some,
  arith,
}
use blog_os.Base.Words.{IsPowerOfTwo, round_down_bounds}

pub record Layout : Type 0 where
  pub size : ℕ
  pub align : ℕ

-- `size` rounded up to a multiple of `align`
abbrev pub padded : ℕ → ℕ → ℕ
padded size align = (size + align - 1) / align * align

-- What every `Layout` satisfies: rounded up to its alignment, the size fits an `isize`.
pub record IsLayout (l : Layout) : Type 0 where
  pub power : IsPowerOfTwo l.align
  pub fits : l.size + l.align ≤ 2 ^ 63

-- `Layout::from_size_align`, for an alignment that is a power of two
abbrev pub from_size_align : ℕ → ℕ → Option Layout
from_size_align size align =
    if leb (size + align) (2 ^ 63) then some (record { size = size; align = align }) else none

-- `Layout::align_to`
abbrev pub align_to : Layout → ℕ → Option Layout
align_to l align = from_size_align l.size (max l.align align)

-- `Layout::pad_to_align`
abbrev pub pad_to_align : Layout → Layout
pad_to_align l = record l { size = padded l.size l.align }

pub padded_lem :
    (size align : ℕ)
    → 0 < align
    → (size ≤ padded size align)
      × (padded size align < size + align)
      × (padded size align % align ≡ 0)
padded_lem size align h =
    let b = round_down_bounds (size + align - 1) align h in
    (omega (arith, b.1), omega (arith, b.0), b.2)
