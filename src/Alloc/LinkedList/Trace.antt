-- ===== src/Alloc/LinkedList/Trace.antt =====
-- A client of the linked list allocator: which blocks are live after any sequence of calls.
use blog_os.Base.{
  ℕ, ◌+◌, ◌%◌, ◌^◌, ◌≤◌, ◌<◌, ◌≡◌, ◌≢◌, sym, ap, subst, ◌∙◌, List, [], ◌∷◌, All, All-map, arith,
  done, done-injective,
}
use blog_os.Alloc.{null}
use blog_os.Alloc.Layouts.{Layout, IsLayout}
use blog_os.Alloc.Blocks.{
  Block, block, Apart, Apart-sym, AllApart, IsWithin, Removed, Removed-All, Removed-AllApart,
}
use blog_os.Alloc.LinkedList.Methods.{LinkedListAllocator, new, init, size_align, alloc, dealloc}
use blog_os.Alloc.LinkedList.Parts.{IsRegion, mod-eight, add_free_region_lem}
use blog_os.Alloc.LinkedList.Laws.{IsFreeList, Allocated, failed, fresh, alloc_lem, dealloc_lem}
use blog_os.Alloc.LinkedList.Sound.{Carved-IsFreeList, Carved-Apart, Carved-others}

-- The allocator and the blocks that its clients hold, in their adjusted sizes.
pub record System : Type 0 where
  pub list : LinkedListAllocator
  pub live : List Block

-- A layout that the allocator can adjust.
pub record IsAdjustable (l : Layout) : Type 0 where
  pub layout : IsLayout l
  pub fits : l.size + 8 ≤ 2 ^ 63

-- A call of `alloc` that fails, one that succeeds, and a call of `dealloc` on a live block with a
-- layout of its size.
pub data Step (s : System) : System → Type 0 where
  no_memory :
      (l : Layout) {list : LinkedListAllocator}
      → IsAdjustable l
      → alloc s.list l ≡ done (null, list)
      → Step s (record { list = list; live = s.live })
  allocate :
      (l : Layout) {p size align : ℕ} {list : LinkedListAllocator}
      → IsAdjustable l
      → p ≢ null
      → size_align l ≡ done (size, align)
      → alloc s.list l ≡ done (p, list)
      → Step s (record { list = list; live = block p size ∷ s.live })
  free :
      (l : Layout) {x : Block} {align : ℕ} {live : List Block} {list : LinkedListAllocator}
      → Removed x s.live live
      → size_align l ≡ done (x.size, align)
      → dealloc s.list x.addr l ≡ done list
      → Step s (record { list = list; live = live })

pub data Reach (s : System) : System → Type 0 where
  here : Reach s s
  next : {t u : System} → Reach s t → Step t u → Reach s u

-- The free list is sound, the live blocks lie in the heap and could hold a node, and no two of
-- all these blocks overlap.
pub record IsSound (lo hi : ℕ) (s : System) : Type 0 where
  pub free_list : IsFreeList lo hi s.list
  pub live : All (IsRegion lo hi) s.live
  pub apart : AllApart s.live
  pub separate : All (λ c. All (Apart c) s.list.regions) s.live

module _ (lo hi : ℕ) (no_null : 0 < lo) (room : hi < 2 ^ 63) where
  same_call :
      (self : LinkedListAllocator) (l : Layout) {p : ℕ} {self' : LinkedListAllocator}
      → IsFreeList lo hi self
      → IsAdjustable l
      → alloc self l ≡ done (p, self')
      → Allocated self l p self'
  same_call self l {p} {self'} h w e =
      let (q, c, eq, a) = alloc_lem lo hi room self h l w.layout w.fits in
      let same : ◌≡◌ {A = ℕ × LinkedListAllocator} (q, c) (p, self') =
        done-injective _ _ (sym eq ∙ e) in
      subst (λ r. Allocated self l r.0 r.1) same a

  failed-IsSound :
      (s : System) (l : Layout) (list : LinkedListAllocator)
      → IsSound lo hi s
      → Allocated s.list l null list
      → IsSound lo hi (record { list = list; live = s.live })
  failed-IsSound s l list h (failed size align e a none_fits hp same) = rw same h
  failed-IsSound s l list h (fresh size align r rest e a rem f cut) = absurd (
      omega (arith, (Removed-All (IsRegion lo hi) rem h.free_list.regions).0.within.above, f.above))

  fresh-IsSound :
      (s : System) (l : Layout) (p : ℕ) (list : LinkedListAllocator) (size align : ℕ)
      → IsSound lo hi s
      → p ≢ null
      → size_align l ≡ done (size, align)
      → Allocated s.list l p list
      → IsSound lo hi (record { list = list; live = block p size ∷ s.live })
  fresh-IsSound s l p list size align h ne e (failed size' align' e' a none_fits hp same) =
      absurd (ne hp)
  fresh-IsSound s l p list size align h ne e (fresh size' align' r rest e' a rem f cut) =
      let pair : ◌≡◌ {A = ℕ × ℕ} (size', align') (size, align) = done-injective _ _ (sym e' ∙ e) in
      let same : size' ≡ size = ap (λ q. q.0) pair in
      let sound : IsSound lo hi (record { list = list; live = block p size' ∷ s.live }) = record {
        free_list =
            Carved-IsFreeList lo hi size' align' p s.list.regions rest r h.free_list a.whole
              a.node_aligned rem f cut;
        live = (
          record {
            within = record {
              above = omega (arith, f.above, within.above);
              below = omega (arith, f.below, within.below);
            };
            aligned = mod-eight p align' a.node_aligned f.aligned;
            holds_node = a.holds_node;
          },
          h.live,
        );
        apart = (apart s.live h.separate, h.apart);
        separate = (
          Carved-Apart lo hi size' align' p s.list.regions rest r h.free_list a.whole a.node_aligned
              rem f cut,
          separate s.live h.separate,
        );
      } in
      subst (λ n. IsSound lo hi (record { list = list; live = block p n ∷ s.live })) same sound
    where
      within : IsWithin lo hi r
      within = (Removed-All (IsRegion lo hi) rem h.free_list.regions).0.within

      others :
          (c : Block)
          → All (Apart c) s.list.regions
          → Apart (block p size') c × All (Apart c) list.regions
      others c k =
          Carved-others lo hi size' align' p s.list.regions rest r h.free_list a.whole
            a.node_aligned rem f c k cut

      apart :
          (cs : List Block)
          → All (λ c. All (Apart c) s.list.regions) cs
          → All (Apart (block p size')) cs
      apart cs k =
          All-map (λ c. All (Apart c) s.list.regions) (Apart (block p size')) cs
            (λ c q. (others c q).0) k

      separate :
          (cs : List Block)
          → All (λ c. All (Apart c) s.list.regions) cs
          → All (λ c. All (Apart c) list.regions) cs
      separate cs k =
          All-map (λ c. All (Apart c) s.list.regions) (λ c. All (Apart c) list.regions) cs
            (λ c q. (others c q).1) k

  -- `dealloc` of a live block does not panic: the assertions of `add_free_region` hold.
  dealloc_live :
      (s : System) (l : Layout) (x : Block) (align : ℕ) {live : List Block}
      → IsSound lo hi s
      → Removed x s.live live
      → size_align l ≡ done (x.size, align)
      → dealloc s.list x.addr l ≡ done (record { regions = x ∷ s.list.regions })
  dealloc_live s l x align h r e =
      let reg : IsRegion lo hi x = (Removed-All (IsRegion lo hi) r h.live).0 in
      dealloc_lem s.list l x.addr x.size align e reg.holds_node (omega (arith, reg.within.below))
        reg.aligned

  free-IsSound :
      (s : System) (l : Layout) (x : Block) (align : ℕ) (live : List Block)
      (list : LinkedListAllocator)
      → IsSound lo hi s
      → Removed x s.live live
      → size_align l ≡ done (x.size, align)
      → dealloc s.list x.addr l ≡ done list
      → IsSound lo hi (record { list = list; live = live })
  free-IsSound s l x align live list h r e eq =
      let same : ◌≡◌ {A = LinkedListAllocator} (record { regions = x ∷ s.list.regions }) list =
        done-injective _ _ (sym (dealloc_live s l x align h r e) ∙ eq) in
      let (reg, regs) = Removed-All (IsRegion lo hi) r h.live in
      let (ap_x, ap_live) = Removed-AllApart r h.apart in
      let (sep_x, sep_live) = Removed-All (λ c. All (Apart c) s.list.regions) r h.separate in
      subst (λ q. IsSound lo hi (record { list = q; live = live })) same
        (record {
          free_list = record {
            regions = (reg, h.free_list.regions);
            apart = (sep_x, h.free_list.apart);
          };
          live = regs;
          apart = ap_live;
          separate = join x s.list.regions live ap_x sep_live;
        })
    where
      join :
          (x : Block) (rs cs : List Block)
          → All (Apart x) cs
          → All (λ c. All (Apart c) rs) cs
          → All (λ c. All (Apart c) (x ∷ rs)) cs
      join x rs [] a b = tt
      join x rs (c ∷ cs) (a, as') (b, bs) = ((Apart-sym x c a, b), join x rs cs as' bs)

  pub Step-IsSound : {s t : System} → Step s t → IsSound lo hi s → IsSound lo hi t
  Step-IsSound {s} (no_memory l {list} w e) h =
      failed-IsSound s l list h (same_call s.list l h.free_list w e)
  Step-IsSound {s} (allocate l {p} {size} {align} {list} w ne sz e) h =
      fresh-IsSound s l p list size align h ne sz (same_call s.list l h.free_list w e)
  Step-IsSound {s} (free l {x} {align} {live} {list} r sz e) h =
      free-IsSound s l x align live list h r sz e

  -- In a heap that does not start at 0 and ends below 2 ^ 63, after any sequence of calls from a sound
  -- system: no two of the live blocks and the free regions overlap, and all lie in the heap.
  pub Reach-IsSound : {s t : System} → IsSound lo hi s → Reach s t → IsSound lo hi t
  Reach-IsSound h here = h
  Reach-IsSound h (next r st) = Step-IsSound st (Reach-IsSound h r)

  -- In a heap that does not start at 0 and ends below 2 ^ 63, after any sequence of allocations and
  -- frees of live blocks from a sound system, neither call panics: `alloc` with any layout that can
  -- be adjusted, and `dealloc` of any live block with a layout of its size.
  pub calls_return :
      (s t : System)
      → IsSound lo hi s
      → Reach s t
      → ((l : Layout) → IsAdjustable l → (r : ℕ × LinkedListAllocator) × (alloc t.list l ≡ done r))
        × ((l : Layout) (x : Block) (align : ℕ) (live : List Block)
            → Removed x t.live live
            → size_align l ≡ done (x.size, align)
            → (list : LinkedListAllocator) × (dealloc t.list x.addr l ≡ done list))
  calls_return s t sound reach =
      let h = Reach-IsSound sound reach in
      (
        λ l w.
            (let (p, q, e, a) = alloc_lem lo hi room t.list h.free_list l w.layout w.fits in
              ((p, q), e)),
        λ l x align live r e.
            (record { regions = x ∷ t.list.regions }, dealloc_live t l x align h r e),
      )

-- `init` with an aligned heap that can hold a node gives a sound system with no live block.
pub init-IsSound :
    (heap_start heap_size : ℕ)
    → heap_start % 8 ≡ 0
    → 16 ≤ heap_size
    → heap_start + heap_size < 2 ^ 63
    → (list : LinkedListAllocator) × (init new heap_start heap_size ≡ done list)
      × IsSound heap_start (heap_start + heap_size) (record { list = list; live = [] })
unfolding init
init-IsSound heap_start heap_size al big room = (
  record { regions = block heap_start heap_size ∷ [] },
  add_free_region_lem new heap_start heap_size (omega arith) al big,
  omega arith,
)
