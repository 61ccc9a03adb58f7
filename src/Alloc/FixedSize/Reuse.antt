-- ===== src/Alloc/FixedSize/Reuse.antt =====
-- tests/heap_allocation.rs: boxes that are freed one after the other, with the fixed-size block
-- allocator of src/allocator/fixed_size_block.rs.
use blog_os.Base.{
  ℕ, zero, suc, ◌≡◌, ◌≢◌, refl, List, [], ◌∷◌, some, Exec, done, ◌>>=◌, ◌>>◌, assert, not, ◌==◌,
  false, replicate, arith,
}
use blog_os.Alloc.{null}
use blog_os.Alloc.Layouts.{Layout}
use blog_os.Alloc.FixedSize.{
  FallbackHeap, FixedSizeBlockAllocator, list_index, new, init, alloc, dealloc, alloc-dealloc,
}
use blog_os.Alloc.FixedSize.Outcomes.{alloc-Allocated}
use blog_os.Alloc.FixedSize.Trace.{System, Reach}
use blog_os.Alloc.FixedSize.Calls.{HasLists, Reach-HasLists, Allocated-HasLists}

module _ {H : Type 0} ⦃heap : FallbackHeap H⦄ where
  -- The loop of `many_allocation_boxes`, for a box of any layout and any number of rounds: the
  -- addresses of the boxes. `Box::new` panics where `alloc` returns null, and the box is freed at
  -- the end of the round. What is written to the box and read back is left out.
  unfoldable pub many_boxes :
      FixedSizeBlockAllocator H → Layout → ℕ → Exec (List ℕ × FixedSizeBlockAllocator H)
  many_boxes a l zero = done ([], a)
  many_boxes a l (suc n) = do
    (x, b) ← alloc a l
    assert (not (x == null))
    c ← dealloc b x l
    (xs, d) ← many_boxes c l n
    done (x ∷ xs, d)

  many_boxes_same :
      (b c : FixedSizeBlockAllocator H) (l : Layout) (p n : ℕ)
      → p ≢ null
      → alloc c l ≡ done (p, b)
      → dealloc b p l ≡ done c
      → many_boxes c l n ≡ done (replicate n p, c)
  unfolding many_boxes
  many_boxes_same b c l p zero ne e k = refl
  many_boxes_same b c l p (suc n) ne e k =
      let test : (p == null) ≡ false = ground (arith, ne) in
      rw (many_boxes, e, test, k, many_boxes_same b c l p n ne e k) refl

  -- Whatever calls a new allocator had before: if the first box of a size class gets memory, any
  -- number of them does, all at its address, and the fallback heap is left as it is after the
  -- first.
  pub many_boxes_lem :
      (heap_start heap_size : ℕ) (s : System H) (l : Layout) (i p n : ℕ)
      (b : FixedSizeBlockAllocator H)
      → Reach (record { allocator = init new heap_start heap_size; live = [] }) s
      → list_index l ≡ some i
      → alloc s.allocator l ≡ done (p, b)
      → p ≢ null
      → (c : FixedSizeBlockAllocator H) × (many_boxes s.allocator l (suc n)
          ≡ done (replicate (suc n) p, c))
        × (c.fallback_allocator ≡ b.fallback_allocator)
  unfolding many_boxes init
  many_boxes_lem heap_start heap_size s l i p n b r hi e ne =
      let nine : HasLists b =
        Allocated-HasLists s.allocator l p b (alloc-Allocated s.allocator l (p, b) e)
          (Reach-HasLists _ s r refl) in
      let (c, freed, again, unasked) = alloc-dealloc b p l i nine hi in
      let test : (p == null) ≡ false = ground (arith, ne) in
      (c, rw (many_boxes, e, test, freed, many_boxes_same b c l p n ne again freed) refl, unasked)
