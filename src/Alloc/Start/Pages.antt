-- ===== src/Alloc/Start/Pages.antt =====
-- src/allocator.rs: which pages `init_heap` maps.
use native.Mathlib.Decide.{ℕ_discrete}
use blog_os.Base.{
  ℕ, zero, suc, ◌+◌, ◌/◌, ◌≤◌, ◌<◌, ◌≡◌, refl, ap, sym, subst, arith, Option-cases, Result, ok, err,
  true, ◌⊎◌, inl, inr,
}
use blog_os.Alloc.FixedSize.{FallbackHeap, FixedSizeBlockAllocator, init}
use blog_os.Alloc.Start.{heap_start, heap_size, Paging, pages_from, map_pages, init_heap}

Result-cases : {E : Type 0} (r : Result E (Unit {0})) → (r ≡ ok tt) ⊎ ((e : E) × (r ≡ err e))
Result-cases (ok u) = inl refl
Result-cases (err e) = inr (e, refl)

module _ {M A E H : Type 0} ⦃paging : Paging M A E⦄ ⦃heap : FallbackHeap H⦄ where
  -- Mapped pages stay mapped, and a loop that ends without an error maps all of its pages.
  map_pages_lem :
      (first count : ℕ) (m : M) (a : A) (allocator : FixedSizeBlockAllocator H) (m' : M) (a' : A)
      (allocator' : FixedSizeBlockAllocator H)
      → map_pages {E = E} (pages_from first count) m a allocator ≡ (ok tt, m', a', allocator')
      → ((p : ℕ) → paging.is_mapped m p ≡ true → paging.is_mapped m' p ≡ true)
        × ((p : ℕ) → first ≤ p → p < first + count → paging.is_mapped m' p ≡ true)
  unfolding map_pages
  map_pages_lem first zero m a allocator m' a' allocator' h =
      let same : m ≡ m' = ap (λ r. r.1) h in
      (λ p e. subst (λ n. paging.is_mapped n p ≡ true) same e, λ p le lt. absurd (omega arith))
  map_pages_lem first (suc count) m a allocator m' a' allocator' h =
      elim (Option-cases (paging.allocate_frame a).0) [
        | inl e ↦ let failed = ap (λ r. r.0) (rw (map_pages, e) at h) in absurd cc
        | inr (frame, e) ↦
            let call = paging.map_to m first frame (paging.allocate_frame a).1 in
            elim (Result-cases call.0) [
              | inr (why, e₁) ↦ let failed = ap (λ r. r.0) (rw (map_pages, e, e₁) at h) in absurd cc
              | inl e₁ ↦
                  let rest = rw (map_pages, e, e₁) at h in
                  let (here, kept) =
                    paging.map_to_lem m first frame (paging.allocate_frame a).1 call.1 call.2
                      (ap (λ r. (r, call.1, call.2)) e₁) in
                  let (kept', all) =
                    map_pages_lem (first + 1) count call.1 call.2
                      (init allocator heap_start heap_size) m' a' allocator' rest in
                  (
                    λ p old. kept' p (kept p old),
                    λ p le lt. elim (ℕ_discrete p first) [
                      | yes same ↦
                          kept' p (subst (λ n. paging.is_mapped call.1 n ≡ true) (sym same) here)
                      | no ne ↦ all p (omega arith) (omega arith)
                    ],
                  )
            ]
      ]

  -- Where `init_heap` returns `Ok`, the page of every byte of the heap is mapped, and every page that was
  -- mapped before still is.
  pub init_heap_lem :
      (m : M) (a : A) (allocator : FixedSizeBlockAllocator H) (m' : M) (a' : A)
      (allocator' : FixedSizeBlockAllocator H)
      → init_heap {E = E} m a allocator ≡ (ok tt, m', a', allocator')
      → ((addr : ℕ)
          → heap_start ≤ addr
          → addr < heap_start + heap_size
          → paging.is_mapped m' (addr / 4096) ≡ true)
        × ((p : ℕ) → paging.is_mapped m p ≡ true → paging.is_mapped m' p ≡ true)
  unfolding init_heap
  init_heap_lem m a allocator m' a' allocator' h =
      let (kept, all) = map_pages_lem (heap_start / 4096) 25 m a allocator m' a' allocator' h in
      (λ addr le lt. all (addr / 4096) (omega arith) (omega arith), kept)
