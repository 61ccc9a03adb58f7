-- ===== src/Alloc/Bump/Methods.antt =====
-- src/allocator/bump.rs: `BumpAllocator` and its methods, which run under the lock of `Locked`.
use blog_os.Base.{ℕ, none, some, ltb, ◌==◌, if◌then◌else◌, Exec, done, ◌>>=◌}
use blog_os.Base.Words.{add_usize, sub_usize, checked_add}
use blog_os.Alloc.{align_up, null}
use blog_os.Alloc.Layouts.{Layout}

pub record BumpAllocator : Type 0 where
  pub heap_start : ℕ
  pub heap_end : ℕ
  pub next : ℕ
  pub allocations : ℕ

abbrev pub new : BumpAllocator
new = record { heap_start = 0; heap_end = 0; next = 0; allocations = 0 }

unfoldable pub init : BumpAllocator → ℕ → ℕ → Exec BumpAllocator
init self heap_start heap_size = do
  heap_end ← add_usize heap_start heap_size
  done (record self { heap_start = heap_start; heap_end = heap_end; next = heap_start })

-- `GlobalAlloc::alloc`
unfoldable pub alloc : BumpAllocator → Layout → Exec (ℕ × BumpAllocator)
alloc bump layout = do
  alloc_start ← align_up bump.next layout.align
  elim (checked_add alloc_start layout.size) [
    | none ↦ done (null, bump)
    | some alloc_end ↦ if ltb bump.heap_end alloc_end then done (null, bump) else do
      allocations ← add_usize bump.allocations 1
      done (alloc_start, record bump { next = alloc_end; allocations = allocations })
  ]

-- `GlobalAlloc::dealloc`
unfoldable pub dealloc : BumpAllocator → Exec BumpAllocator
dealloc bump = do
  allocations ← sub_usize bump.allocations 1
  done (record bump {
    allocations = allocations;
    next = if allocations == 0 then bump.heap_start else bump.next;
  })
