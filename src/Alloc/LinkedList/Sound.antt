-- ===== src/Alloc/LinkedList/Sound.antt =====
-- The blocks that `alloc` hands out do not overlap the free regions or what was apart from them.
use blog_os.Base.{ℕ, ◌+◌, ◌%◌, ◌≡◌, inl, inr, List, All, arith}
use blog_os.Alloc.Blocks.{Block, block, Apart, Removed, Removed-All, Removed-AllApart}
use blog_os.Alloc.LinkedList.Methods.{LinkedListAllocator}
use blog_os.Alloc.LinkedList.Parts.{IsRegion, FitsAt, mod-eight}
use blog_os.Alloc.LinkedList.Laws.{IsFreeList, Inside, Inside-Apart, Carved, exact, split}

module _ (lo hi size align start : ℕ) (rs rest : List Block) (r : Block)
    (h : IsFreeList lo hi (record { regions = rs })) (whole : size % 8 ≡ 0) (eight : align % 8 ≡ 0)
    (rem : Removed r rs rest) (f : FitsAt r size align start) where
  -- What is left of the free list is sound.
  pub Carved-IsFreeList :
      {self' : LinkedListAllocator}
      → Carved (record { regions = rest }) r size start self'
      → IsFreeList lo hi self'
  Carved-IsFreeList (exact e) = record {
    regions = (Removed-All (IsRegion lo hi) rem h.regions).1;
    apart = (Removed-AllApart rem h.apart).1;
  }
  Carved-IsFreeList (split left big e) =
      let (reg, regs) = Removed-All (IsRegion lo hi) rem h.regions in
      let (ap_r, ap_rest) = Removed-AllApart rem h.apart in
      let tail : Block = block (start + size) left in
      let inside : Inside tail r = record { above = omega (arith, f.above); below = omega arith } in
      record {
        regions = (
          record {
            within = record {
              above = omega (arith, f.above, reg.within.above);
              below = omega (arith, reg.within.below);
            };
            aligned = omega (arith, mod-eight start align eight f.aligned);
            holds_node = big;
          },
          regs,
        );
        apart = (Inside-Apart tail r rest inside ap_r, ap_rest);
      }

  -- The block is apart from the regions that are left.
  pub Carved-Apart :
      {self' : LinkedListAllocator}
      → Carved (record { regions = rest }) r size start self'
      → All (Apart (block start size)) self'.regions
  Carved-Apart (exact e) =
      Inside-Apart (block start size) r rest (record { above = f.above; below = f.below })
        (Removed-AllApart rem h.apart).0
  Carved-Apart (split left big e) = (
    inl (omega arith),
    Inside-Apart (block start size) r rest (record { above = f.above; below = f.below })
        (Removed-AllApart rem h.apart).0,
  )

  -- What was apart from every region is apart from the block and from what is left.
  pub Carved-others :
      (c : Block) {self' : LinkedListAllocator}
      → All (Apart c) rs
      → Carved (record { regions = rest }) r size start self'
      → Apart (block start size) c × All (Apart c) self'.regions
  Carved-others c a (exact e) = let (ar, arest) = Removed-All (Apart c) rem a in (inside ar, arest)
    where
      inside : Apart c r → Apart (block start size) c
      inside (inl p) = inr (omega (arith, f.above))
      inside (inr p) = inl (omega (arith, f.below))
  Carved-others c a (split left big e) =
      let (ar, arest) = Removed-All (Apart c) rem a in (inside ar, (behind ar, arest))
    where
      inside : Apart c r → Apart (block start size) c
      inside (inl p) = inr (omega (arith, f.above))
      inside (inr p) = inl (omega (arith, f.below))

      behind : Apart c r → Apart c (block (start + size) left)
      behind (inl p) = inl (omega (arith, f.above))
      behind (inr p) = inr (omega arith)
