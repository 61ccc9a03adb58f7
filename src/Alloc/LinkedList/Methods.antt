-- ===== src/Alloc/LinkedList/Methods.antt =====
-- src/allocator/linked_list.rs: `LinkedListAllocator` and its methods, which run under the lock.
-- A `ListNode` stands at the start of the free region that it describes, so a node is the region's
-- address and size, and the list behind the dummy head is the list of regions.
use blog_os.Base.{
  ℕ, max, List, [], ◌∷◌, Option, none, some, ltb, leb, ◌==◌, if◌then◌else◌, ◌&&◌, Exec, done, ◌>>=◌,
  ◌>>◌, Result, ok, err, assert, expect,
}
use blog_os.Base.Words.{add_usize, sub_usize, checked_add}
use blog_os.Alloc.{align_up, null}
use blog_os.Alloc.Layouts.{Layout, align_to, pad_to_align}
use blog_os.Alloc.Blocks.{Block, block}

-- `mem::size_of::<ListNode>()` and `mem::align_of::<ListNode>()` on x86_64
abbrev pub node_size : ℕ
node_size = 16

abbrev pub node_align : ℕ
node_align = 8

pub record LinkedListAllocator : Type 0 where
  pub regions : List Block

abbrev pub new : LinkedListAllocator
new = record { regions = [] }

-- `ListNode::end_addr`
unfoldable pub end_addr : Block → Exec ℕ
end_addr region = add_usize region.addr region.size

unfoldable pub add_free_region : LinkedListAllocator → ℕ → ℕ → Exec LinkedListAllocator
add_free_region self addr size = do
  aligned ← align_up addr node_align
  assert (aligned == addr)
  assert (leb node_size size)
  done (record { regions = block addr size ∷ self.regions })

unfoldable pub init : LinkedListAllocator → ℕ → ℕ → Exec LinkedListAllocator
unfolding add_free_region
init self heap_start heap_size = add_free_region self heap_start heap_size

unfoldable pub alloc_from_region : Block → ℕ → ℕ → Exec (Result (Unit {0}) ℕ)
unfolding end_addr
alloc_from_region region size align = do
  alloc_start ← align_up region.addr align
  elim (checked_add alloc_start size) [
    | none ↦ done (err tt)
    | some alloc_end ↦ do
      end ← end_addr region
      if ltb end alloc_end then done (err tt) else do
        excess_size ← sub_usize end alloc_end
        done (if ltb 0 excess_size && ltb excess_size node_size then err tt else ok alloc_start)
  ]

-- The loop of `find_region`, over the nodes that are left.
unfoldable pub find_loop : List Block → ℕ → ℕ → Exec (Option (Block × ℕ) × List Block)
find_loop [] size align = done (none, [])
find_loop (region ∷ rest) size align =
    let later = find_loop rest size align in
    do
      r ← alloc_from_region region size align
      elim r [
        | ok alloc_start ↦ done (some (region, alloc_start), rest)
        | err e ↦ do (found, rest') ← later; done (found, region ∷ rest')
      ]

unfoldable pub find_region :
    LinkedListAllocator → ℕ → ℕ → Exec (Option (Block × ℕ) × LinkedListAllocator)
find_region self size align = do
  (found, regions) ← find_loop self.regions size align
  done (found, record { regions = regions })

unfoldable pub size_align : Layout → Exec (ℕ × ℕ)
size_align layout = do
  l ← expect (align_to layout node_align)
  let padded = pad_to_align l
  done (max padded.size node_size, padded.align)

-- What `alloc` does with the region that it found.
unfoldable pub carve : LinkedListAllocator → ℕ → Block × ℕ → Exec (ℕ × LinkedListAllocator)
carve self size (region, alloc_start) = do
  alloc_end ← expect (checked_add alloc_start size)
  end ← end_addr region
  excess_size ← sub_usize end alloc_end
  self' ← if ltb 0 excess_size then add_free_region self alloc_end excess_size else done self
  done (alloc_start, self')

-- `GlobalAlloc::alloc`
unfoldable pub alloc : LinkedListAllocator → Layout → Exec (ℕ × LinkedListAllocator)
alloc self layout = do
  (size, align) ← size_align layout
  (found, self') ← find_region self size align
  elim found [ none ↦ done (null, self') | some found_at ↦ carve self' size found_at ]

-- `GlobalAlloc::dealloc`
unfoldable pub dealloc : LinkedListAllocator → ℕ → Layout → Exec LinkedListAllocator
dealloc self ptr layout = do (size, align) ← size_align layout; add_free_region self ptr size
