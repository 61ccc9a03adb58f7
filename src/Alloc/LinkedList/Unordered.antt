-- ===== src/Alloc/LinkedList/Unordered.antt =====
-- src/allocator/linked_list.rs: the free regions without their order in the list, on which only the
-- choice among the regions that suit depends.
use mathlib.Core.Bool.{Bool-set}
use mathlib.Core.List.Permᴰ
use mathlib.Core.List.{Permᴰ}
use mathlib.Core.Quot
use mathlib.Core.Quot.{Quot, Quot-set}
use blog_os.Base.{
  ℕ, ◌+◌, ◌^◌, ◌≤◌, ◌<◌, ◌≡◌, ◌≢◌, refl, ◌∙◌, List, [], ◌∷◌, Option, none, some, All, arith, Bool,
  true, false, ◌||◌, Exec, done, panic, Result, ok, err,
}
use blog_os.Alloc.{null}
use blog_os.Alloc.Layouts.{Layout, IsLayout}
use blog_os.Alloc.Blocks.{Block, block, end_of, Removed, first, later, Removed-All}
use blog_os.Alloc.LinkedList.Methods.{
  LinkedListAllocator, alloc_from_region, find_loop, find_region, size_align, alloc,
}
use blog_os.Alloc.LinkedList.Parts.{
  IsRegion, FitsAt, Found, refused, taken, find_loop_lem, Adjusted, size_align_lem,
}
use blog_os.Alloc.LinkedList.Laws.{IsFreeList, Carved, exact, split, carve_lem, region-IsWithin}

-- Free regions in no order.
abbrev pub Regions : Type 0
Regions = Quot {α = List Block} Permᴰ

abbrev pub unordered : LinkedListAllocator → Regions
unordered self = Quot.mk self.regions

unfoldable pub put : Block → Regions → Regions
put r = Quot.lift Quot-set (λ rs. Quot.mk (r ∷ rs)) (λ rs qs h. Quot.sound (Permᴰ.cons refl h))

abbrev pub is_found : Exec (Result (Unit {0}) ℕ) → Bool
is_found (done (ok start)) = true
is_found (done (err e)) = false
is_found panic = false

abbrev pub any_suits : ℕ → ℕ → List Block → Bool
any_suits size align [] = false
any_suits size align (r ∷ rs) = is_found (alloc_from_region r size align) || any_suits size align rs

or_swap : (a b c : Bool) → (a || (b || c)) ≡ (b || (a || c))
or_swap true true c = refl
or_swap true false c = refl
or_swap false b c = refl

pub any_suits-Perm :
    (size align : ℕ) {rs qs : List Block}
    → Permᴰ rs qs
    → any_suits size align rs ≡ any_suits size align qs
any_suits-Perm size align Permᴰ.nil = refl
any_suits-Perm size align (Permᴰ.cons e p) = rw (e, any_suits-Perm size align p)
any_suits-Perm size align (Permᴰ.swap {a} {b} {a'} {b'} {l} e k) =
    rw (e, k)
      (or_swap (is_found (alloc_from_region b' size align))
        (is_found (alloc_from_region a' size align)) (any_suits size align l))
any_suits-Perm size align (Permᴰ.trans p q) =
    any_suits-Perm size align p ∙ any_suits-Perm size align q

-- One of the regions suits an allocation of this size and alignment.
unfoldable pub serves : ℕ → ℕ → Regions → Bool
serves size align =
    Quot.lift Bool-set (any_suits size align) (λ rs qs h. any_suits-Perm size align h)

Removed-Perm : {r : Block} {rs rest : List Block} → Removed r rs rest → Permᴰ rs (r ∷ rest)
Removed-Perm first = Permᴰ.refl _
Removed-Perm (later {y} h) = Permᴰ.trans (Permᴰ.cons refl (Removed-Perm h)) (Permᴰ.swap refl refl)

none_suits :
    (size align : ℕ) (rs : List Block)
    → All (λ r. alloc_from_region r size align ≡ done (err tt)) rs
    → any_suits size align rs ≡ false
none_suits size align [] h = refl
none_suits size align (r ∷ rs) (e, h) = rw e (none_suits size align rs h)

or_true : (a : Bool) → (a || true) ≡ true
or_true true = refl
or_true false = refl

Removed-suits :
    (size align : ℕ) {r : Block} {rs rest : List Block} {start : ℕ}
    → Removed r rs rest
    → alloc_from_region r size align ≡ done (ok start)
    → any_suits size align rs ≡ true
Removed-suits size align first e = rw e
Removed-suits size align (later {y} h) e = rw (Removed-suits size align h e) (or_true _)

-- What `alloc` does to the free regions in no order, where it returns `p`.
pub data Served (size align p : ℕ) (H H' : Regions) : Type 0 where
  nothing : serves size align H ≡ false → p ≡ null → H' ≡ H → Served size align p H H'
  all_of :
      (r : Block) (rest : Regions)
      → serves size align H ≡ true
      → p ≢ null
      → H ≡ put r rest
      → FitsAt r size align p
      → p + size ≡ end_of r
      → H' ≡ rest
      → Served size align p H H'
  part_of :
      (r : Block) (rest : Regions) (left : ℕ)
      → serves size align H ≡ true
      → p ≢ null
      → H ≡ put r rest
      → FitsAt r size align p
      → p + size + left ≡ end_of r
      → 16 ≤ left
      → H' ≡ put (block (p + size) left) rest
      → Served size align p H H'

module _ {size align p : ℕ} {r : Block} {rs rest : List Block} (rem : Removed r rs rest)
    (f : FitsAt r size align p) (suits : alloc_from_region r size align ≡ done (ok p))
    (above : 0 < r.addr) where
  Carved-Served :
      {self' : LinkedListAllocator}
      → Carved (record { regions = rest }) r size p self'
      → Served size align p (Quot.mk rs) (unordered self')
  unfolding serves put
  Carved-Served (exact e) =
      all_of r (Quot.mk rest) (Removed-suits size align rem suits) (λ h. omega (arith, f.above))
        (Quot.sound (Removed-Perm rem)) f e refl
  Carved-Served (split left big e) =
      part_of r (Quot.mk rest) left (Removed-suits size align rem suits)
        (λ h. omega (arith, f.above)) (Quot.sound (Removed-Perm rem)) f e big refl

module _ (lo hi : ℕ) (low : 0 < lo) (room : hi < 2 ^ 63) (self : LinkedListAllocator)
    (h : IsFreeList lo hi self) (l : Layout) (w : IsLayout l) (fits : l.size + 8 ≤ 2 ^ 63) where
  Found-Served :
      (size align : ℕ) (o : Option (Block × ℕ)) (rest : List Block)
      → Adjusted l size align
      → size_align l ≡ done (size, align)
      → find_loop self.regions size align ≡ done (o, rest)
      → Found size align self.regions o rest
      → (p : ℕ) × (self' : LinkedListAllocator) × (alloc self l ≡ done (p, self'))
        × Served size align p (unordered self) (unordered self')
  unfolding alloc find_region serves
  Found-Served size align none rest a e f (refused none_fits) =
      (null, self, rw (e, f), nothing (none_suits size align self.regions none_fits) refl refl)
  Found-Served size align (some (r, start)) rest a e f (taken rem at suits) =
      let region : IsRegion lo hi r = (Removed-All (IsRegion lo hi) rem h.regions).0 in
      let (self', c, cut) =
        carve_lem lo hi size align start (record { regions = rest }) r room region.within a.whole
          a.node_aligned at in
      (
        start,
        self',
        rw (e, f, c),
        Carved-Served rem at suits (omega (arith, region.within.above)) cut,
      )

-- In a heap above address 0 and below 2^63, a call of `alloc` with a layout that can be adjusted
-- does not panic, and what it does to the free regions can be told without their order in the
-- list. It returns null, and leaves them all, exactly when none of them suits; otherwise the block
-- lies in one of them, which is taken, and what is behind the block in it, if anything, is a free
-- region again.
pub alloc-Served :
    (lo hi : ℕ) (self : LinkedListAllocator) (l : Layout)
    → 0 < lo
    → hi < 2 ^ 63
    → IsFreeList lo hi self
    → IsLayout l
    → l.size + 8 ≤ 2 ^ 63
    → (size : ℕ) × (align : ℕ) × (p : ℕ) × (self' : LinkedListAllocator) × (size_align l
        ≡ done (size, align))
      × (alloc self l ≡ done (p, self'))
      × Served size align p (unordered self) (unordered self')
alloc-Served lo hi self l low room h w fits =
    let (size, align, e, a) = size_align_lem l w fits in
    let (o, rest, f, found) =
      find_loop_lem lo hi size align room a.power a.small self.regions
        (region-IsWithin lo hi self.regions h.regions) in
    let (p, self', eq, s) =
      Found-Served lo hi low room self h l w fits size align o rest a e f found in
    (size, align, p, self', e, eq, s)
