-- ===== src/Tests/Classes.antt =====
-- The fixed-size block allocator over a heap that only grows.
use blog_os.Base.{
  ℕ, ◌+◌, ◌≤◌, ◌≡◌, ◌≢◌, refl, ap, List, [], ◌∷◌, none, some, done, done-injective, some-injective,
  inr, arith, replicate,
}
use blog_os.Alloc.Layouts.{Layout}
use blog_os.Alloc.Blocks.{block, end_of, first}
use blog_os.Alloc.FixedSize.{
  FallbackHeap, FixedSizeBlockAllocator, list_index, new, init, alloc_block, alloc, dealloc,
  fallback_alloc,
}
use blog_os.Alloc.FixedSize.Calls.{AllocReturns, DeallocReturns, Reach-init-returns}
use blog_os.Alloc.FixedSize.Reuse.{many_boxes, many_boxes_lem}
use blog_os.Alloc.{null}
use blog_os.Alloc.FixedSize.Trace.{
  IsHeap, System, Reach, here, next, allocate, free, IsSound, Reach-init-IsSound,
}

instance abbrev growing : FallbackHeap ℕ
growing = record {
  empty = 0;
  init = λ h start size. start;
  allocate_first_fit = λ h l. done (some h, h + l.size);
  deallocate = λ h p l. done h;
}

abbrev growing_heap : IsHeap growing
growing_heap = record {
  holds = λ h b. end_of b ≤ h;
  allocate_some = λ h h' l p e.
      let same = done-injective _ _ e in
      let at : h ≡ p = some-injective _ _ (ap (λ r. r.0) same) in
      let top : h + l.size ≡ h' = ap (λ r. r.1) same in
      (λ b low. inr (omega arith), omega arith, λ b low. omega arith);
  allocate_none =
      λ h h' l e. let bad : some h ≡ none = ap (λ r. r.0) (done-injective _ _ e) in absurd cc;
  deallocate_lem = λ h h' p l e own b there apart.
      let same : h ≡ h' = done-injective _ _ e in omega (arith, same, there);
}

abbrev bytes : Layout
bytes = record { size = 24; align = 8 }

abbrev allocator_with : List ℕ → FixedSizeBlockAllocator ℕ
allocator_with free_list = record {
  list_heads = [] ∷ [] ∷ free_list ∷ [] ∷ [] ∷ [] ∷ [] ∷ [] ∷ [] ∷ [];
  fallback_allocator = 96;
}

abbrev reused : System ℕ
reused = record { allocator = allocator_with []; live = block 64 32 ∷ [] }

-- A block is allocated, freed, and allocated again.
reused-Reach : Reach (record { allocator = init new 64 1000; live = [] }) reused
unfolding init alloc alloc_block dealloc fallback_alloc list_index
reused-Reach =
    next
      (next (next here (allocate bytes (λ e. absurd (omega (arith, e))) refl))
        (free bytes {a = allocator_with (64 ∷ [])} first refl))
      (allocate bytes (λ e. absurd (omega (arith, e))) refl)

Reach-init-IsSound_example : IsSound growing_heap reused
Reach-init-IsSound_example = Reach-init-IsSound growing_heap 64 1000 reused reused-Reach

Reach-init-returns_example :
    ((l : Layout) → AllocReturns reused.allocator l)
    × ((p : ℕ) (l : Layout) → p ≢ null → DeallocReturns reused.allocator p l)
Reach-init-returns_example = Reach-init-returns 64 1000 reused reused-Reach

abbrev extended : FixedSizeBlockAllocator ℕ
extended = record (allocator_with []) { fallback_allocator = 128 }

extended-alloc : alloc reused.allocator bytes ≡ done (96, extended)
unfolding alloc alloc_block fallback_alloc list_index
extended-alloc = refl

bytes_class : list_index bytes ≡ some 2
unfolding list_index
bytes_class = refl

many_boxes_lem_example :
    (c : FixedSizeBlockAllocator ℕ) × (many_boxes reused.allocator bytes 1000
      ≡ done (replicate 1000 96, c))
    × (c.fallback_allocator ≡ 128)
many_boxes_lem_example =
    many_boxes_lem 64 1000 reused bytes 2 96 999 extended reused-Reach bytes_class extended-alloc
      (λ e. absurd (omega (arith, e)))
