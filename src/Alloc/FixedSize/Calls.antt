-- ===== src/Alloc/FixedSize/Calls.antt =====
-- src/allocator/fixed_size_block.rs: `alloc` and `dealloc` return where the fallback heap does.
use blog_os.Base.{
  ℕ, ◌+◌, ◌^◌, ◌≤◌, ◌<◌, ◌≡◌, ◌≢◌, refl, ◌∙◌, List, [], ◌∷◌, Option-cases, none, some, done, panic,
  Exec-cases, sym, ◌⊎◌, inl, inr, set, length, length-set, get_elem?-lt, get_elem?, leb, le→leb,
  ◌==◌, true, false, All, All-get_elem?, arith,
}
use blog_os.Alloc.{null}
use blog_os.Alloc.Layouts.{Layout}
use blog_os.Alloc.FixedSize.Methods.{
  FallbackHeap, FixedSizeBlockAllocator, block_sizes, list_index, fallback_alloc, alloc_block,
  alloc, dealloc, new, init,
}
use blog_os.Alloc.FixedSize.Laws.{Position-lt, list_index_lem, dealloc_class}
use blog_os.Alloc.FixedSize.Outcomes.{
  block_size_of, own_size, class_size, Allocated, popped, from_fallback, Freed, pushed, to_fallback,
  alloc-Allocated, dealloc-Freed,
}
use blog_os.Alloc.FixedSize.Trace.{System, Step, no_memory, allocate, free, Reach, here, next}

sizes_small : All (λ s. s + s ≤ 2 ^ 63) block_sizes
sizes_small = (
  omega arith,
  (
    omega arith,
    (
      omega arith,
      (omega arith, (omega arith, (omega arith, (omega arith, (omega arith, (omega arith, tt)))))),
    ),
  ),
)

module _ {H : Type 0} ⦃heap : FallbackHeap H⦄ where
  -- One free list for each block size.
  abbrev pub HasLists : FixedSizeBlockAllocator H → Type 0
  HasLists a = length a.list_heads ≡ 9

  -- A call returns, or the fallback heap's method panics in it, on a layout of the block's size.
  abbrev pub AllocReturns : FixedSizeBlockAllocator H → Layout → Type 0
  AllocReturns a l =
      ((r : ℕ × FixedSizeBlockAllocator H) × (alloc a l ≡ done r))
      ⊎ ((l' : Layout) × (l'.size ≡ block_size_of l)
          × (heap.allocate_first_fit a.fallback_allocator l' ≡ panic))

  -- A call returns, or the layout has no class and the fallback heap's method panics in it.
  abbrev pub DeallocReturns : FixedSizeBlockAllocator H → ℕ → Layout → Type 0
  DeallocReturns a p l =
      ((a' : FixedSizeBlockAllocator H) × (dealloc a p l ≡ done a'))
      ⊎ ((list_index l ≡ none) × (heap.deallocate a.fallback_allocator p l ≡ panic))

  fallback_alloc-returns :
      (a : FixedSizeBlockAllocator H) (l : Layout)
      → ((r : ℕ × FixedSizeBlockAllocator H) × (fallback_alloc a l ≡ done r))
        ⊎ (heap.allocate_first_fit a.fallback_allocator l ≡ panic)
  unfolding fallback_alloc
  fallback_alloc-returns a l = elim (Exec-cases (heap.allocate_first_fit a.fallback_allocator l)) [
    | inl e ↦ inr e
    | inr ((o, h), e) ↦ inl (
      (elim o [ none ↦ null | some ptr ↦ ptr ], record a { fallback_allocator = h }),
      rw (fallback_alloc, e) refl,
    )
  ]

  alloc-returns : (a : FixedSizeBlockAllocator H) (l : Layout) → HasLists a → AllocReturns a l
  unfolding alloc alloc_block
  alloc-returns a l nine = elim (Option-cases (list_index l)) [
    | inl e ↦ elim (fallback_alloc-returns a l) [
      | inl (r, went) ↦ inl (r, rw (alloc, e) went)
      | inr bad ↦ inr (l, own_size l e, bad)
    ]
    | inr (i, e) ↦
        let low : i < 9 = Position-lt block_sizes (list_index l) i (list_index_lem l) e in
        let (head, at) = get_elem?-lt a.list_heads i (omega (arith, low, nine)) in
        from_class i head e low at
  ]
    where
      from_class :
          (i : ℕ) (head : List ℕ)
          → list_index l ≡ some i
          → i < 9
          → get_elem? a.list_heads i ≡ some head
          → AllocReturns a l
      from_class i (node ∷ tail) e low at = inl (
        (node, record a { list_heads = set a.list_heads i tail }),
        rw (alloc, e, at, alloc_block) refl,
      )
      from_class i [] e low at =
          let (s, sized) = get_elem?-lt block_sizes i low in
          let small = All-get_elem? (λ s. s + s ≤ 2 ^ 63) block_sizes i sizes_small sized in
          let fits : leb (s + s) (2 ^ 63) ≡ true = le→leb (s + s) (2 ^ 63) small in
          elim (fallback_alloc-returns a (record { size = s; align = s })) [
            | inl (r, went) ↦ inl (r, rw (alloc, e, at, alloc_block, sized, fits) went)
            | inr bad ↦ inr (record { size = s; align = s }, sym (class_size l i s e sized), bad)
          ]

  dealloc-returns :
      (a : FixedSizeBlockAllocator H) (p : ℕ) (l : Layout)
      → HasLists a
      → p ≢ null
      → DeallocReturns a p l
  unfolding dealloc
  dealloc-returns a p l nine ne = elim (Option-cases (list_index l)) [
    | inl e ↦
        let test : (p == null) ≡ false = ground (arith, ne) in
        elim (Exec-cases (heap.deallocate a.fallback_allocator p l)) [
          | inl bad ↦ inr (e, bad)
          | inr (h, went) ↦
              inl (record a { fallback_allocator = h }, rw (dealloc, e, test, went) refl)
        ]
    | inr (i, e) ↦
        let low : i < 9 = Position-lt block_sizes (list_index l) i (list_index_lem l) e in
        let (head, at) = get_elem?-lt a.list_heads i (omega (arith, low, nine)) in
        inl
          (record a { list_heads = set a.list_heads i (p ∷ head) }, dealloc_class a p l i head e at)
  ]

  pub Allocated-HasLists :
      (a : FixedSizeBlockAllocator H) (l : Layout) (p : ℕ) (a' : FixedSizeBlockAllocator H)
      → Allocated a l p a'
      → HasLists a
      → HasLists a'
  Allocated-HasLists a l p a' (popped i tail e size at) nine = length-set a.list_heads i tail ∙ nine
  Allocated-HasLists a l p a' (from_fallback l' o h size e at) nine = nine

  Freed-HasLists :
      (a : FixedSizeBlockAllocator H) (l : Layout) (p : ℕ) (a' : FixedSizeBlockAllocator H)
      → Freed a l p a'
      → HasLists a
      → HasLists a'
  Freed-HasLists a l p a' (pushed i head e size at) nine =
      length-set a.list_heads i (p ∷ head) ∙ nine
  Freed-HasLists a l p a' (to_fallback h size e) nine = nine

  pub Reach-HasLists : (s t : System H) → Reach s t → HasLists s.allocator → HasLists t.allocator
  Reach-HasLists s t here nine = nine
  Reach-HasLists s t (next {t = u} before step) nine =
      Step-HasLists u t step (Reach-HasLists s u before nine)
    where
      Step-HasLists : (s t : System H) → Step s t → HasLists s.allocator → HasLists t.allocator
      Step-HasLists s t (no_memory l e) =
          Allocated-HasLists s.allocator l _ _ (alloc-Allocated s.allocator l _ e)
      Step-HasLists s t (allocate l ne e) =
          Allocated-HasLists s.allocator l _ _ (alloc-Allocated s.allocator l _ e)
      Step-HasLists s t (free l {p = p} gone e) =
          Freed-HasLists s.allocator l p _ (dealloc-Freed s.allocator _ p l e)

  -- After any sequence of calls from a new allocator, `alloc` with any layout and `dealloc` of any
  -- pointer but null with any layout return, unless the fallback heap's own method panics in the
  -- call: that is on a layout of the block's size in `alloc`, and in `dealloc` only where the layout
  -- is in no size class.
  pub Reach-init-returns :
      (heap_start heap_size : ℕ) (t : System H)
      → Reach (record { allocator = init new heap_start heap_size; live = [] }) t
      → ((l : Layout) → AllocReturns t.allocator l)
        × ((p : ℕ) (l : Layout) → p ≢ null → DeallocReturns t.allocator p l)
  unfolding init
  Reach-init-returns heap_start heap_size t r =
      let nine : HasLists t.allocator =
        Reach-HasLists (record { allocator = init new heap_start heap_size; live = [] }) t r refl in
      (λ l. alloc-returns t.allocator l nine, λ p l ne. dealloc-returns t.allocator p l nine ne)
