-- ===== src/Alloc/FixedSize/Methods.antt =====
-- src/allocator/fixed_size_block.rs: `FixedSizeBlockAllocator` and its methods, which run under the
-- lock. A `ListNode` stands in the free block itself, so a list of nodes is the list of the blocks'
-- addresses.
use blog_os.Base.{
  ℕ, suc, max, List, [], ◌∷◌, Option, none, some, leb, ◌==◌, if◌then◌else◌, Exec, done, ◌>>=◌, ◌>>◌,
  assert, expect, get_elem?, set, not,
}
use blog_os.Alloc.{null}
use blog_os.Alloc.Layouts.{Layout, from_size_align}

-- The `linked_list_allocator` crate's `Heap`, which is not part of the repository. Its methods may
-- panic, as on a layout that does not fit its holes, or on a block that is not its own.
pub record FallbackHeap (H : Type 0) : Type 0 where
  pub empty : H
  pub init : H → ℕ → ℕ → H
  pub allocate_first_fit : H → Layout → Exec (Option ℕ × H)
  pub deallocate : H → ℕ → Layout → Exec H

abbrev pub block_sizes : List ℕ
block_sizes = 8 ∷ 16 ∷ 32 ∷ 64 ∷ 128 ∷ 256 ∷ 512 ∷ 1024 ∷ 2048 ∷ []

pub record FixedSizeBlockAllocator (H : Type 0) : Type 0 where
  pub list_heads : List (List ℕ)
  pub fallback_allocator : H

-- `iter().position(|&s| s >= required)`
abbrev pub position_ge : ℕ → List ℕ → Option ℕ
position_ge required [] = none
position_ge required (s ∷ rest) =
    if leb required s
    then some 0
    else elim (position_ge required rest) [ none ↦ none | some i ↦ some (suc i) ]

unfoldable pub list_index : Layout → Option ℕ
list_index layout = position_ge (max layout.size layout.align) block_sizes

module _ {H : Type 0} ⦃heap : FallbackHeap H⦄ where
  abbrev pub new : FixedSizeBlockAllocator H
  new = record {
    list_heads = [] ∷ [] ∷ [] ∷ [] ∷ [] ∷ [] ∷ [] ∷ [] ∷ [] ∷ [];
    fallback_allocator = heap.empty;
  }

  unfoldable pub init : FixedSizeBlockAllocator H → ℕ → ℕ → FixedSizeBlockAllocator H
  init self heap_start heap_size = record self {
    fallback_allocator = heap.init self.fallback_allocator heap_start heap_size;
  }

  unfoldable pub fallback_alloc :
      FixedSizeBlockAllocator H → Layout → Exec (ℕ × FixedSizeBlockAllocator H)
  fallback_alloc self layout = do
    (r, h) ← heap.allocate_first_fit self.fallback_allocator layout
    done (elim r [ none ↦ null | some ptr ↦ ptr ], record self { fallback_allocator = h })

  -- `alloc` for a layout of the class `index`
  unfoldable pub alloc_block :
      FixedSizeBlockAllocator H → ℕ → List ℕ → Exec (ℕ × FixedSizeBlockAllocator H)
  alloc_block allocator index (node ∷ next) =
      done (node, record allocator { list_heads = set allocator.list_heads index next })
  alloc_block allocator index [] = do
    block_size ← expect (get_elem? block_sizes index)
    layout ← expect (from_size_align block_size block_size)
    fallback_alloc allocator layout

  -- `GlobalAlloc::alloc`
  unfoldable pub alloc : FixedSizeBlockAllocator H → Layout → Exec (ℕ × FixedSizeBlockAllocator H)
  alloc allocator layout = elim (list_index layout) [
    | some index ↦ do
      head ← expect (get_elem? allocator.list_heads index)
      alloc_block allocator index head
    | none ↦ fallback_alloc allocator layout
  ]

  -- `GlobalAlloc::dealloc`; a `ListNode` has 8 bytes and is aligned to 8.
  unfoldable pub dealloc : FixedSizeBlockAllocator H → ℕ → Layout → Exec (FixedSizeBlockAllocator H)
  dealloc allocator ptr layout = elim (list_index layout) [
    | some index ↦ do
      head ← expect (get_elem? allocator.list_heads index)
      block_size ← expect (get_elem? block_sizes index)
      assert (leb 8 block_size)
      assert (leb 8 block_size)
      done (record allocator { list_heads = set allocator.list_heads index (ptr ∷ head) })
    | none ↦ do
      assert (not (ptr == null))
      h ← heap.deallocate allocator.fallback_allocator ptr layout
      done (record allocator { fallback_allocator = h })
  ]
