-- ===== src/Tests/Allocators.antt =====
-- The theorems of src/allocator.rs and src/allocator/ on small heaps.
use blog_os.Base.{ℕ, ◌≡◌, refl, arith, List, [], ◌∷◌, none, some, done}
use blog_os.Base.Words.{IsPowerOfTwo}
use blog_os.Alloc.{align_up}
use blog_os.Alloc.Layouts.{Layout, IsLayout}
use blog_os.Alloc.Blocks.{Block, block, Removed}
use blog_os.Alloc.Bump as Bump
use blog_os.Alloc.LinkedList as LinkedList
use blog_os.Alloc.FixedSize as FixedSize
use blog_os.Alloc.FixedSize.{FallbackHeap, FixedSizeBlockAllocator, Position, block_sizes}

power_of_eight : IsPowerOfTwo 8
power_of_eight = record { exponent = 3; small = omega arith; power = refl }

-- 24 bytes, aligned to 8.
abbrev small : Layout
small = record { size = 24; align = 8 }

small-IsLayout : IsLayout small
small-IsLayout = record { power = power_of_eight; fits = omega arith }

-- A bump allocator with a heap of 100 bytes, before and after a call.
abbrev bump_at : ℕ → ℕ → Bump.BumpAllocator
bump_at next allocations = record {
  heap_start = 64;
  heap_end = 164;
  next = next;
  allocations = allocations;
}

bump_alloc : Bump.alloc (bump_at 64 0) small ≡ done (64, bump_at 88 1)
unfolding Bump.alloc align_up
bump_alloc = refl

bump_dealloc : Bump.dealloc (bump_at 88 1) ≡ done (bump_at 64 0)
unfolding Bump.dealloc
bump_dealloc = refl

abbrev bump_start : Bump.System
bump_start = record { bump = bump_at 64 0; live = [] }

bump_start-IsConsistent : Bump.IsConsistent bump_start
bump_start-IsConsistent = omega arith

bump_trace : Bump.Reach bump_start bump_start
bump_trace =
    Bump.Reach.next
      (Bump.Reach.next Bump.Reach.here (
        Bump.Step.allocate small small-IsLayout (omega arith) (λ e. absurd (omega (arith, e)))
          bump_alloc))
      (Bump.Step.free Removed.first bump_dealloc)

Reach-IsConsistent_example : Bump.IsConsistent bump_start
Reach-IsConsistent_example = Bump.Reach-IsConsistent bump_start-IsConsistent bump_trace

-- A linked list allocator with a heap of 160 bytes, before and after a call.
abbrev list_of : List Block → LinkedList.LinkedListAllocator
list_of regions = record { regions = regions }

abbrev list_start : LinkedList.System
list_start = record { list = list_of (block 64 160 ∷ []); live = [] }

abbrev list_end : LinkedList.System
list_end = record { list = list_of (block 64 24 ∷ block 88 136 ∷ []); live = [] }

list_start-IsSound : LinkedList.IsSound 64 224 list_start
list_start-IsSound = omega arith

small-IsAdjustable : LinkedList.IsAdjustable small
small-IsAdjustable = record { layout = small-IsLayout; fits = omega arith }

small_adjusted : LinkedList.size_align small ≡ done (24, 8)
unfolding LinkedList.size_align
small_adjusted = refl

list_alloc : LinkedList.alloc list_start.list small ≡ done (64, list_of (block 88 136 ∷ []))
unfolding LinkedList.alloc LinkedList.size_align LinkedList.find_region LinkedList.find_loop
    LinkedList.alloc_from_region LinkedList.end_addr LinkedList.carve LinkedList.add_free_region
    align_up
list_alloc = refl

list_dealloc : LinkedList.dealloc (list_of (block 88 136 ∷ [])) 64 small ≡ done list_end.list
unfolding LinkedList.dealloc LinkedList.size_align LinkedList.add_free_region align_up
list_dealloc = refl

list_trace : LinkedList.Reach list_start list_end
list_trace =
    LinkedList.Reach.next
      (LinkedList.Reach.next LinkedList.Reach.here (
        LinkedList.Step.allocate small small-IsAdjustable (λ e. absurd (omega (arith, e)))
          small_adjusted list_alloc))
      (LinkedList.Step.free small Removed.first small_adjusted list_dealloc)

Reach-IsSound_example : LinkedList.IsSound 64 224 list_end
Reach-IsSound_example =
    LinkedList.Reach-IsSound 64 224 (omega arith) (omega arith) list_start-IsSound list_trace

calls_return_example :
    ((l : Layout)
      → LinkedList.IsAdjustable l
      → (r : ℕ × LinkedList.LinkedListAllocator) × (LinkedList.alloc list_end.list l ≡ done r))
    × ((l : Layout) (x : Block) (align : ℕ) (live : List Block)
        → Removed x [] live
        → LinkedList.size_align l ≡ done (x.size, align)
        → (list : LinkedList.LinkedListAllocator) × (LinkedList.dealloc list_end.list x.addr l
            ≡ done list))
calls_return_example =
    LinkedList.calls_return 64 224 (omega arith) (omega arith) list_start list_end
      list_start-IsSound list_trace

alloc-Served_example :
    (size : ℕ) × (align : ℕ) × (p : ℕ) × (self' : LinkedList.LinkedListAllocator)
    × (LinkedList.size_align small ≡ done (size, align))
    × (LinkedList.alloc list_start.list small ≡ done (p, self'))
    × LinkedList.Served size align p
        (LinkedList.unordered list_start.list)
        (LinkedList.unordered self')
alloc-Served_example =
    LinkedList.alloc-Served 64 224 list_start.list small (omega arith) (omega arith)
      list_start-IsSound.free_list small-IsLayout (omega arith)

-- A fallback heap that has no memory.
instance abbrev no_heap : FallbackHeap ℕ
no_heap = record {
  empty = 0;
  init = λ h start size. size;
  allocate_first_fit = λ h l. done (none, h);
  deallocate = λ h p l. done h;
}

small_class : FixedSize.list_index small ≡ some 2
unfolding FixedSize.list_index
small_class = refl
