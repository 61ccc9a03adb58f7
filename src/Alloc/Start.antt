-- ===== src/Alloc/Start.antt =====
-- src/allocator.rs: `init_heap`, `Dummy`, and the constants of the heap.
use blog_os.Base.{
  ℕ, zero, suc, ◌+◌, ◌-◌, ◌*◌, ◌/◌, ◌≡◌, List, [], ◌∷◌, Option, none, some, Result, ok, err, Exec,
  panic, Bool, true,
}
use blog_os.Alloc.{null}
use blog_os.Alloc.Layouts.{Layout}
use blog_os.Alloc.FixedSize.{FallbackHeap, FixedSizeBlockAllocator, init}
pub mod Pages

abbrev pub heap_start : ℕ
heap_start = 0x4444_4444_0000

abbrev pub heap_size : ℕ
heap_size = 100 * 1024

-- `Dummy::alloc` and `Dummy::dealloc`
abbrev pub dummy_alloc : Layout → ℕ
dummy_alloc layout = null

abbrev pub dummy_dealloc : ℕ → Layout → Exec (Unit {0})
dummy_dealloc ptr layout = panic

-- The `x86_64` crate's `FrameAllocator` and `Mapper` for pages of 4096 bytes, as `init_heap` calls
-- them: a page and a frame are their numbers, and `is_mapped` says which pages are mapped. `E` is
-- `MapToError`.
pub record Paging (M A E : Type 0) : Type 0 where
  pub frame_allocation_failed : E
  pub allocate_frame : A → Option ℕ × A
  pub map_to : M → ℕ → ℕ → A → Result E (Unit {0}) × M × A
  pub is_mapped : M → ℕ → Bool
  pub map_to_lem :
      (m : M) (page frame : ℕ) (a : A) (m' : M) (a' : A)
      → map_to m page frame a ≡ (ok tt, m', a')
      → (is_mapped m' page ≡ true) × ((p : ℕ) → is_mapped m p ≡ true → is_mapped m' p ≡ true)

-- `Page::range_inclusive`, from a page on
abbrev pub pages_from : ℕ → ℕ → List ℕ
pages_from first zero = []
pages_from first (suc count) = first ∷ pages_from (first + 1) count

-- `page_range`: from the page of the heap's first byte to that of its last
abbrev pub page_range : List ℕ
page_range =
    let first = heap_start / 4096 in
    let last = (heap_start + heap_size - 1) / 4096 in pages_from first (last + 1 - first)

module _ {M A E H : Type 0} ⦃paging : Paging M A E⦄ ⦃heap : FallbackHeap H⦄ where
  -- The loop of `init_heap`; `allocator` is what `ALLOCATOR` guards.
  unfoldable pub map_pages :
      List ℕ
      → M
      → A
      → FixedSizeBlockAllocator H
      → Result E (Unit {0}) × M × A × FixedSizeBlockAllocator H
  map_pages [] m a allocator = (ok tt, m, a, allocator)
  map_pages (page ∷ pages) m a allocator =
      let (o, a') = paging.allocate_frame a in
      elim o [
        | none ↦ (err paging.frame_allocation_failed, m, a', allocator)
        | some frame ↦
            let (r, m', a'') = paging.map_to m page frame a' in
            elim r [
              | err e ↦ (err e, m', a'', allocator)
              | ok u ↦ map_pages pages m' a'' (init allocator heap_start heap_size)
            ]
      ]

  -- `init_heap`
  unfoldable pub init_heap :
      M → A → FixedSizeBlockAllocator H → Result E (Unit {0}) × M × A × FixedSizeBlockAllocator H
  init_heap mapper frame_allocator allocator = map_pages page_range mapper frame_allocator allocator
