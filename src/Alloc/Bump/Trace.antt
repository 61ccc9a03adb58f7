-- ===== src/Alloc/Bump/Trace.antt =====
-- A client of the bump allocator: which blocks are live after any sequence of calls.
use blog_os.Base.{
  ℕ, ◌+◌, ◌<◌, ◌≡◌, ◌≢◌, suc, List, [], ◌∷◌, All, length, done, done-injective, arith, ◌^◌, subst,
  refl, ◌∙◌, sym,
}
use blog_os.Alloc.{null}
use blog_os.Alloc.Layouts.{Layout, IsLayout}
use blog_os.Alloc.Blocks.{
  Block, block, AllApart, IsWithin, Removed, Removed-All, Removed-AllApart, Removed-length,
  above-Apart, IsWithin-widen,
}
use blog_os.Alloc.Bump.Methods.{BumpAllocator, new, init, alloc, dealloc}
use blog_os.Alloc.Bump.Laws.{
  IsValid, Allocated, failed, fresh, alloc-Allocated, freed, freed-IsValid, dealloc_lem,
}

-- The allocator and the blocks that its clients hold.
pub record System : Type 0 where
  pub bump : BumpAllocator
  pub live : List Block

-- A call of `alloc` that fails, one that succeeds, and a call of `dealloc` on a live block.
pub data Step (s : System) : System → Type 0 where
  no_memory :
      (l : Layout) {b' : BumpAllocator}
      → IsLayout l
      → 0 < l.size
      → alloc s.bump l ≡ done (null, b')
      → Step s (record { bump = b'; live = s.live })
  allocate :
      (l : Layout) {p : ℕ} {b' : BumpAllocator}
      → IsLayout l
      → 0 < l.size
      → p ≢ null
      → alloc s.bump l ≡ done (p, b')
      → Step s (record { bump = b'; live = block p l.size ∷ s.live })
  free :
      {x : Block} {live' : List Block} {b' : BumpAllocator}
      → Removed x s.live live'
      → dealloc s.bump ≡ done b'
      → Step s (record { bump = b'; live = live' })

pub data Reach (s : System) : System → Type 0 where
  here : Reach s s
  next : {t u : System} → Reach s t → Step t u → Reach s u

-- The live blocks do not overlap, lie between the start of the heap and `next`, and are counted.
pub record IsConsistent (s : System) : Type 0 where
  pub valid : IsValid s.bump
  pub counted : s.bump.allocations ≡ length s.live
  pub inside : All (IsWithin s.bump.heap_start s.bump.next) s.live
  pub apart : AllApart s.live

failed-IsConsistent :
    (s : System) (l : Layout) (b' : BumpAllocator)
    → IsConsistent s
    → Allocated s.bump l null b'
    → IsConsistent (record { bump = b'; live = s.live })
failed-IsConsistent s l b' h (failed hp hb hf) = rw hb h
failed-IsConsistent s l b' h (fresh lo hi al fits hb) =
    absurd (omega (arith, h.valid.no_null, h.valid.count))

fresh-IsConsistent :
    (s : System) (l : Layout) (p : ℕ) (b' : BumpAllocator)
    → IsConsistent s
    → 0 < l.size
    → p ≢ null
    → Allocated s.bump l p b'
    → IsConsistent (record { bump = b'; live = block p l.size ∷ s.live })
fresh-IsConsistent s l p b' h pos ne (failed hp hb hf) = absurd (ne hp)
fresh-IsConsistent s l p b' h pos ne (fresh lo hi al fits hb) =
    let b : BumpAllocator = s.bump in
    rw hb (record {
      valid = omega (arith, h.valid.no_null, h.valid.below, h.valid.room, h.valid.count);
      counted = omega (arith, h.counted);
      inside = (
        record { above = omega (arith, h.valid.count); below = omega arith },
        IsWithin-widen b.heap_start b.next (p + l.size) s.live (omega arith) h.inside,
      );
      apart = (above-Apart b.heap_start b.next (block p l.size) s.live lo h.inside, h.apart);
    })

freed-inside :
    (b : BumpAllocator) (live : List Block)
    → All (IsWithin b.heap_start b.next) live
    → All (IsWithin b.heap_start (freed b (length live)).next) live
freed-inside b [] h = tt
freed-inside b (x ∷ xs) h =
    let e : b.next ≡ (freed b (suc (length xs))).next = ground arith in
    subst (λ n. All (IsWithin b.heap_start n) (x ∷ xs)) e h

free-IsConsistent :
    (s : System) (x : Block) (live' : List Block) (b' : BumpAllocator)
    → IsConsistent s
    → Removed x s.live live'
    → dealloc s.bump ≡ done b'
    → IsConsistent (record { bump = b'; live = live' })
free-IsConsistent s x live' b' h r e =
    let b : BumpAllocator = s.bump in
    let n : ℕ = length live' in
    let one : b.allocations ≡ suc n = h.counted ∙ Removed-length r in
    let same : freed b n ≡ b' = done-injective _ _ (sym (dealloc_lem b n one) ∙ e) in
    rw (← same) (record {
      valid = freed-IsValid b n h.valid one;
      counted = refl;
      inside = freed-inside b live' (Removed-All (IsWithin b.heap_start b.next) r h.inside).1;
      apart = (Removed-AllApart r h.apart).1;
    })

pub Step-IsConsistent : {s t : System} → Step s t → IsConsistent s → IsConsistent t
Step-IsConsistent {s} (no_memory l {b'} w pos e) h =
    failed-IsConsistent s l b' h (alloc-Allocated s.bump l h.valid w e)
Step-IsConsistent {s} (allocate l {p} {b'} w pos ne e) h =
    fresh-IsConsistent s l p b' h pos ne (alloc-Allocated s.bump l h.valid w e)
Step-IsConsistent {s} (free {x} {live'} {b'} r e) h = free-IsConsistent s x live' b' h r e

-- After any sequence of calls from a sound system, the live blocks do not overlap, lie in the
-- used part of the heap and are counted.
pub Reach-IsConsistent : {s t : System} → IsConsistent s → Reach s t → IsConsistent t
Reach-IsConsistent h here = h
Reach-IsConsistent h (next r st) = Step-IsConsistent st (Reach-IsConsistent h r)

-- `init` on a fresh allocator is sound, with no live block.
pub init-IsConsistent :
    (heap_start heap_size : ℕ)
    → 0 < heap_start
    → heap_start + heap_size < 2 ^ 63
    → (b : BumpAllocator) × (init new heap_start heap_size ≡ done b)
      × IsConsistent (record { bump = b; live = [] })
unfolding init
init-IsConsistent heap_start heap_size pos room = (
  record {
    heap_start = heap_start;
    heap_end = heap_start + heap_size;
    next = heap_start;
    allocations = 0;
  },
  ground arith,
  omega arith,
)
