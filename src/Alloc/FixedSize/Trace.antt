-- ===== src/Alloc/FixedSize/Trace.antt =====
-- A client of the fixed-size block allocator: which blocks are live after any sequence of calls.
use blog_os.Base.{
  ℕ, ◌≡◌, ◌≢◌, sym, subst, List, [], ◌∷◌, ◌++◌, Option, none, some, done, All, All-map,
}
use blog_os.Alloc.{null}
use blog_os.Alloc.Layouts.{Layout}
use blog_os.Alloc.Blocks.{
  Block, block, Apart, AllApart, Removed, Removed-All, Removed-AllApart, Removed-behind,
  Removed-before, Removed-All-back, Removed-AllApart-back,
}
use blog_os.Alloc.FixedSize.Methods.{
  FallbackHeap, FixedSizeBlockAllocator, block_sizes, alloc, dealloc, new, init,
}
use blog_os.Alloc.FixedSize.FreeLists.{free_of, free_of-pop, free_of-push}
use blog_os.Alloc.FixedSize.Outcomes.{
  block_size_of, Allocated, popped, from_fallback, Freed, pushed, to_fallback, alloc-Allocated,
  dealloc-Freed,
}

-- What the `linked_list_allocator` crate documents of its heap: a block that it gives is none of
-- those that it gave and did not get back. `holds` says which these are.
pub record IsHeap {H : Type 0} (heap : FallbackHeap H) : Type 1 where
  pub holds : H → Block → Type 0
  pub allocate_some :
      (h h' : H) (l : Layout) (p : ℕ)
      → heap.allocate_first_fit h l ≡ done (some p, h')
      → ((b : Block) → holds h b → Apart (block p l.size) b)
        × holds h' (block p l.size)
        × ((b : Block) → holds h b → holds h' b)
  pub allocate_none :
      (h h' : H) (l : Layout)
      → heap.allocate_first_fit h l ≡ done (none, h')
      → (b : Block) → holds h b
      → holds h' b
  pub deallocate_lem :
      (h h' : H) (p : ℕ) (l : Layout)
      → heap.deallocate h p l ≡ done h'
      → holds h (block p l.size)
      → (b : Block) → holds h b
      → Apart (block p l.size) b
      → holds h' b

-- The allocator and the blocks that its clients hold, in the sizes that they got.
pub record System (H : Type 0) : Type 0 where
  pub allocator : FixedSizeBlockAllocator H
  pub live : List Block

module _ {H : Type 0} ⦃heap : FallbackHeap H⦄ where
  -- A call of `alloc` that fails, one that succeeds, and a call of `dealloc` on a live block with a
  -- layout of its size.
  pub data Step (s : System H) : System H → Type 0 where
    no_memory :
        (l : Layout) {a : FixedSizeBlockAllocator H}
        → alloc s.allocator l ≡ done (null, a)
        → Step s (record { allocator = a; live = s.live })
    allocate :
        (l : Layout) {p : ℕ} {a : FixedSizeBlockAllocator H}
        → p ≢ null
        → alloc s.allocator l ≡ done (p, a)
        → Step s (record { allocator = a; live = block p (block_size_of l) ∷ s.live })
    free :
        (l : Layout) {p : ℕ} {live : List Block} {a : FixedSizeBlockAllocator H}
        → Removed (block p (block_size_of l)) s.live live
        → dealloc s.allocator p l ≡ done a
        → Step s (record { allocator = a; live = live })

  pub data Reach (s : System H) : System H → Type 0 where
    here : Reach s s
    next : {t u : System H} → Reach s t → Step t u → Reach s u

module _ {H : Type 0} ⦃heap : FallbackHeap H⦄ (fallback : IsHeap heap) where
  -- The live blocks and those in the free lists.
  abbrev pub outstanding : System H → List Block
  outstanding s = s.live ++ free_of block_sizes s.allocator.list_heads

  -- They are blocks of the fallback heap, and no two of them overlap.
  pub record IsSound (s : System H) : Type 0 where
    pub held : All (fallback.holds s.allocator.fallback_allocator) (outstanding s)
    pub apart : AllApart (outstanding s)

  -- A block that the fallback heap gave is one more.
  grown :
      (h : H) (l : Layout) (o : Option ℕ) (h' : H) (p : ℕ) (blocks : List Block)
      → heap.allocate_first_fit h l ≡ done (o, h')
      → p ≡ (elim o [ none ↦ null | some ptr ↦ ptr ])
      → All (fallback.holds h) blocks
      → AllApart blocks
      → All (fallback.holds h') blocks
        × (p ≢ null → fallback.holds h' (block p l.size) × All (Apart (block p l.size)) blocks)
  grown h l none h' p blocks e at held apart = (
    All-map (fallback.holds h) (fallback.holds h') blocks (fallback.allocate_none h h' l e) held,
    λ ne. absurd (ne at),
  )
  grown h l (some ptr) h' p blocks e at held apart =
      let (new, there, kept) = fallback.allocate_some h h' l ptr e in
      (
        All-map (fallback.holds h) (fallback.holds h') blocks kept held,
        λ ne. rw at (there, All-map (fallback.holds h) (Apart (block ptr l.size)) blocks new held),
      )

  none-IsSound :
      (s : System H) (l : Layout) (p : ℕ) (a : FixedSizeBlockAllocator H)
      → IsSound s
      → Allocated s.allocator l p a
      → IsSound (record { allocator = a; live = s.live })
  none-IsSound s l p a h (popped i tail e size at) =
      let r =
        Removed-behind s.live (free_of-pop block_sizes s.allocator.list_heads i _ p tail size at) in
      record { held = (Removed-All _ r h.held).1; apart = (Removed-AllApart r h.apart).1 }
  none-IsSound s l p a h (from_fallback l' o heap' size e at) = record {
    held = (grown _ l' o heap' p (outstanding s) e at h.held h.apart).0;
    apart = h.apart;
  }

  more-IsSound :
      (s : System H) (l : Layout) (p : ℕ) (a : FixedSizeBlockAllocator H)
      → IsSound s
      → p ≢ null
      → Allocated s.allocator l p a
      → IsSound (record { allocator = a; live = block p (block_size_of l) ∷ s.live })
  more-IsSound s l p a h ne (popped i tail e size at) =
      let r =
        Removed-behind s.live (free_of-pop block_sizes s.allocator.list_heads i _ p tail size at) in
      record { held = Removed-All _ r h.held; apart = Removed-AllApart r h.apart }
  more-IsSound s l p a h ne (from_fallback l' o heap' size e at) =
      let (kept, new) = grown _ l' o heap' p (outstanding s) e at h.held h.apart in
      let (there, apart) = new ne in
      record {
        held = (subst (λ n. fallback.holds heap' (block p n)) size there, kept);
        apart = (subst (λ n. All (Apart (block p n)) (outstanding s)) size apart, h.apart);
      }

  fewer-IsSound :
      (s : System H) (l : Layout) (p : ℕ) (live : List Block) (a : FixedSizeBlockAllocator H)
      → IsSound s
      → Removed (block p (block_size_of l)) s.live live
      → Freed s.allocator l p a
      → IsSound (record { allocator = a; live = live })
  fewer-IsSound s l p live a h gone (pushed i head e size at) =
      let free = free_of block_sizes s.allocator.list_heads in
      let out = Removed-before free gone in
      let back =
        Removed-behind live (free_of-push block_sizes s.allocator.list_heads i _ p head size at) in
      let (own, held) = Removed-All _ out h.held in
      let (apart, rest) = Removed-AllApart out h.apart in
      record {
        held = Removed-All-back _ back own held;
        apart = Removed-AllApart-back back apart rest;
      }
  fewer-IsSound s l p live a h gone (to_fallback heap' size taken) =
      let free = free_of block_sizes s.allocator.list_heads in
      let out = Removed-before free gone in
      let (own, held) = Removed-All _ out h.held in
      let (apart, rest) = Removed-AllApart out h.apart in
      let own' =
        subst (λ n. fallback.holds s.allocator.fallback_allocator (block p n)) (sym size) own in
      let apart' = subst (λ n. All (Apart (block p n)) (live ++ free)) (sym size) apart in
      record { held = still (live ++ free) held apart' own'; apart = rest }
    where
      still :
          (blocks : List Block)
          → All (fallback.holds s.allocator.fallback_allocator) blocks
          → All (Apart (block p l.size)) blocks
          → fallback.holds s.allocator.fallback_allocator (block p l.size)
          → All (fallback.holds heap') blocks
      still [] held apart own = tt
      still (b ∷ blocks) held apart own = (
        fallback.deallocate_lem _ heap' p l taken own b held.0 apart.0,
        still blocks held.1 apart.1 own,
      )

  Step-IsSound : (s t : System H) → IsSound s → Step s t → IsSound t
  Step-IsSound s t h (no_memory l e) = none-IsSound s l null _ h (alloc-Allocated s.allocator l _ e)
  Step-IsSound s t h (allocate l ne e) =
      more-IsSound s l _ _ h ne (alloc-Allocated s.allocator l _ e)
  Step-IsSound s t h (free l gone e) =
      fewer-IsSound s l _ _ _ h gone (dealloc-Freed s.allocator _ _ l e)

  from-IsSound : (s t : System H) → IsSound s → Reach s t → IsSound t
  from-IsSound s t h here = h
  from-IsSound s t h (next before step) = Step-IsSound _ t (from-IsSound s _ h before) step

  -- If the fallback heap gives no block that it gave and did not get back, then after any sequence
  -- of calls from a new allocator the live blocks and the blocks in the free lists are blocks of
  -- that heap, and no two of them overlap.
  pub Reach-init-IsSound :
      (heap_start heap_size : ℕ) (t : System H)
      → Reach (record { allocator = init new heap_start heap_size; live = [] }) t
      → IsSound t
  unfolding init
  Reach-init-IsSound heap_start heap_size t r =
      from-IsSound (record { allocator = init new heap_start heap_size; live = [] }) t
        (record { held = tt; apart = tt }) r
