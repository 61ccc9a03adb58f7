-- ===== src/Alloc/Bump/Laws.antt =====
-- What one call of the bump allocator does.
use blog_os.Base.{
  ℕ, sym, subst, ◌∙◌, done-injective, ◌^◌, ◌==◌, leb, true, if◌then◌else◌, suc, ◌-◌, ◌+◌, ◌≤◌, ◌<◌,
  ◌%◌, ◌≡◌, inl, inr, done, arith, ltb, Bool-cases, refl,
}
use blog_os.Alloc.{align_up_lem, null}
use blog_os.Alloc.Layouts.{Layout, IsLayout}
use blog_os.Alloc.Bump.Methods.{BumpAllocator, alloc, dealloc}

-- `next` is in the heap, which does not hold the null pointer, and every allocation that is
-- counted took a byte at least.
pub record IsValid (b : BumpAllocator) : Type 0 where
  pub no_null : 0 < b.heap_start
  pub below : b.next ≤ b.heap_end
  pub room : b.heap_end < 2 ^ 63
  pub count : b.heap_start + b.allocations ≤ b.next

-- What a call of `alloc` leaves: no memory and no change, or a fresh aligned block above `next`.
pub data Allocated (b : BumpAllocator) (l : Layout) (p : ℕ) (b' : BumpAllocator) : Type 0 where
  failed : p ≡ null → b' ≡ b → b.heap_end < b.next + l.align + l.size → Allocated b l p b'
  fresh :
      b.next ≤ p
      → p < b.next + l.align
      → p % l.align ≡ 0
      → p + l.size ≤ b.heap_end
      → b' ≡ record b { next = p + l.size; allocations = b.allocations + 1 }
      → Allocated b l p b'

pub alloc_lem :
    (b : BumpAllocator) (l : Layout)
    → IsValid b
    → IsLayout l
    → (p : ℕ) × (b' : BumpAllocator) × (alloc b l ≡ done (p, b')) × Allocated b l p b'
unfolding alloc
alloc_lem b l v w =
    let (r, eq, lo, hi, al) =
      align_up_lem b.next l.align w.power (omega (arith, v.below, v.room, w.fits)) in
    elim (Bool-cases (ltb b.heap_end (r + l.size))) [
      | inl full ↦ (null, b, ground (arith, eq), failed refl refl (ground arith))
      | inr fits ↦ (
        r,
        record b { next = r + l.size; allocations = b.allocations + 1 },
        ground (arith, eq),
        fresh lo hi al (ground arith) refl,
      )
    ]

-- `alloc` does no more than that.
pub alloc-Allocated :
    (b : BumpAllocator) (l : Layout) {p : ℕ} {b' : BumpAllocator}
    → IsValid b
    → IsLayout l
    → alloc b l ≡ done (p, b')
    → Allocated b l p b'
alloc-Allocated b l {p} {b'} v w e =
    let (q, c, eq, a) = alloc_lem b l v w in
    let same : ◌≡◌ {A = ℕ × BumpAllocator} (q, c) (p, b') = done-injective _ _ (sym eq ∙ e) in
    subst (λ r. Allocated b l r.0 r.1) same a

-- `alloc` does not panic and keeps the invariant, for a layout of at least a byte.
pub alloc-IsValid :
    (b : BumpAllocator) (l : Layout) {p : ℕ} {b' : BumpAllocator}
    → IsValid b
    → 0 < l.size
    → Allocated b l p b'
    → IsValid b'
alloc-IsValid b l v pos (failed hp hb hf) = rw hb v
alloc-IsValid b l v pos (fresh lo hi al fits hb) =
    rw hb (omega (arith, v.no_null, v.below, v.room, v.count))

-- What `dealloc` leaves: one allocation less, and the whole heap is free at 0.
abbrev pub freed : BumpAllocator → ℕ → BumpAllocator
freed b n = record b { allocations = n; next = if n == 0 then b.heap_start else b.next }

pub dealloc_lem : (b : BumpAllocator) (n : ℕ) → b.allocations ≡ suc n → dealloc b ≡ done (freed b n)
unfolding dealloc
dealloc_lem b n e =
    let below : suc n - 1 ≡ n = omega arith in
    let enough : leb 1 (suc n) ≡ true = ground arith in rw (e, enough, below)

pub freed-IsValid :
    (b : BumpAllocator) (n : ℕ) → IsValid b → b.allocations ≡ suc n → IsValid (freed b n)
freed-IsValid b n v e = ground arith
