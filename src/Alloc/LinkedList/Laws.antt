-- ===== src/Alloc/LinkedList/Laws.antt =====
-- What the calls of the linked list allocator do to its free regions.
use blog_os.Base.{
  ℕ, ◌+◌, ◌-◌, ◌%◌, ◌^◌, ◌≤◌, ◌<◌, ◌≡◌, refl, ◌⊎◌, inl, inr, List, ◌∷◌, Option, none, some, All,
  All-map, arith, done, err,
}
use blog_os.Alloc.{null}
use blog_os.Alloc.Layouts.{Layout, IsLayout}
use blog_os.Alloc.Blocks.{Block, block, end_of, Apart, AllApart, IsWithin, Removed, Removed-All}
use blog_os.Alloc.LinkedList.Methods.{
  LinkedListAllocator, alloc_from_region, end_addr, find_loop, find_region, size_align, carve,
  alloc, dealloc,
}
use blog_os.Alloc.LinkedList.Parts.{
  IsRegion, add_free_region_lem, FitsAt, Found, refused, taken, find_loop_lem, mod-eight, Adjusted,
  size_align_lem,
}

-- The free regions: each can hold a node, all lie in the heap, and no two overlap.
pub record IsFreeList (lo hi : ℕ) (self : LinkedListAllocator) : Type 0 where
  pub regions : All (IsRegion lo hi) self.regions
  pub apart : AllApart self.regions

-- `b` lies inside `r`.
pub record Inside (b r : Block) : Type 0 where
  pub above : r.addr ≤ b.addr
  pub below : end_of b ≤ end_of r

pub Inside-Apart :
    (b r : Block) (cs : List Block) → Inside b r → All (Apart r) cs → All (Apart b) cs
Inside-Apart b r cs i h = All-map (Apart r) (Apart b) cs (λ c a. go c a) h
  where
    go : (c : Block) → Apart r c → Apart b c
    go c (inl p) = inl (omega (arith, i.below))
    go c (inr p) = inr (omega (arith, i.above))

-- What `carve` leaves: the rest of the region behind the block is free again.
pub data Carved (self : LinkedListAllocator) (r : Block) (size start : ℕ)
    : LinkedListAllocator → Type 0 where
  exact : start + size ≡ end_of r → Carved self r size start self
  split :
      (rest : ℕ)
      → 16 ≤ rest
      → start + size + rest ≡ end_of r
      → Carved self r size start (record { regions = block (start + size) rest ∷ self.regions })

pub carve_lem :
    (lo hi size align start : ℕ) (self : LinkedListAllocator) (r : Block)
    → hi < 2 ^ 63
    → IsWithin lo hi r
    → size % 8 ≡ 0
    → align % 8 ≡ 0
    → FitsAt r size align start
    → (self' : LinkedListAllocator) × (carve self size (r, start) ≡ done (start, self'))
      × Carved self r size start self'
unfolding carve end_addr
carve_lem lo hi size align start self r room w whole eight f = go f.rest
  where
    aligned : (start + size) % 8 ≡ 0
    aligned = omega (arith, mod-eight start align eight f.aligned)

    go :
        (start + size ≡ end_of r) ⊎ (start + size + 16 ≤ end_of r)
        → (self' : LinkedListAllocator) × (carve self size (r, start) ≡ done (start, self'))
          × Carved self r size start self'
    go (inl e) = (self, ground (arith, w.below), exact e)
    go (inr h) =
        let rest : ℕ = end_of r - (start + size) in
        (
          record { regions = block (start + size) rest ∷ self.regions },
          ground (
            arith,
            w.below,
            add_free_region_lem self (start + size) rest (omega (arith, w.below)) aligned
                (omega arith),
          ),
          split rest (omega arith) (omega arith),
        )

-- What a call of `alloc` does: it changes nothing, as no region suits, or it takes the block out
-- of a region.
pub data Allocated (self : LinkedListAllocator) (l : Layout) (p : ℕ) (self' : LinkedListAllocator)
    : Type 0 where
  failed :
      (size align : ℕ)
      → size_align l ≡ done (size, align)
      → Adjusted l size align
      → All (λ r. alloc_from_region r size align ≡ done (err tt)) self.regions
      → p ≡ null
      → self' ≡ self
      → Allocated self l p self'
  fresh :
      (size align : ℕ) (r : Block) (rest : List Block)
      → size_align l ≡ done (size, align)
      → Adjusted l size align
      → Removed r self.regions rest
      → FitsAt r size align p
      → Carved (record { regions = rest }) r size p self'
      → Allocated self l p self'

pub region-IsWithin :
    (lo hi : ℕ) (rs : List Block) → All (IsRegion lo hi) rs → All (IsWithin lo hi) rs
region-IsWithin lo hi rs h = All-map (IsRegion lo hi) (IsWithin lo hi) rs (λ r i. i.within) h

module _ (lo hi : ℕ) (room : hi < 2 ^ 63) (self : LinkedListAllocator) (h : IsFreeList lo hi self)
    (l : Layout) (w : IsLayout l) (fits : l.size + 8 ≤ 2 ^ 63) where
  alloc-Found :
      (size align : ℕ) (o : Option (Block × ℕ)) (rest : List Block)
      → Adjusted l size align
      → size_align l ≡ done (size, align)
      → find_loop self.regions size align ≡ done (o, rest)
      → Found size align self.regions o rest
      → (p : ℕ) × (self' : LinkedListAllocator) × (alloc self l ≡ done (p, self'))
        × Allocated self l p self'
  unfolding alloc find_region
  alloc-Found size align none rest a e f (refused none_fits) =
      (null, self, rw (e, f), failed size align e a none_fits refl refl)
  alloc-Found size align (some (r, start)) rest a e f (taken rem at suits) =
      let (self', c, cut) =
        carve_lem lo hi size align start (record { regions = rest }) r room
          (Removed-All (IsRegion lo hi) rem h.regions).0.within a.whole a.node_aligned at in
      (start, self', rw (e, f, c), fresh size align r rest e a rem at cut)

  pub alloc_lem :
      (p : ℕ) × (self' : LinkedListAllocator) × (alloc self l ≡ done (p, self'))
      × Allocated self l p self'
  alloc_lem =
      let (size, align, e, a) = size_align_lem l w fits in
      let (o, rest, f, found) =
        find_loop_lem lo hi size align room a.power a.small self.regions
          (region-IsWithin lo hi self.regions h.regions) in
      alloc-Found size align o rest a e f found

-- Freeing an aligned block of the adjusted size puts it in front of the list.
pub dealloc_lem :
    (self : LinkedListAllocator) (l : Layout) (ptr size align : ℕ)
    → size_align l ≡ done (size, align)
    → 16 ≤ size
    → ptr < 2 ^ 63
    → ptr % 8 ≡ 0
    → dealloc self ptr l ≡ done (record { regions = block ptr size ∷ self.regions })
unfolding dealloc
dealloc_lem self l ptr size align e big room al =
    rw (e, add_free_region_lem self ptr size room al big)
