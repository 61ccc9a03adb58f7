-- ===== src/Alloc/FixedSize/Outcomes.antt =====
-- src/allocator/fixed_size_block.rs: what a call of `alloc` or `dealloc` that does not panic did.
use blog_os.Base.{
  ℕ, zero, suc, ◌+◌, ◌^◌, ◌≡◌, refl, ap, sym, subst, ◌∙◌, List, [], ◌∷◌, Option, Option-cases, none,
  some, some-injective, done, done-injective, >>=-eq-done, expect, assert, inl, inr, get_elem?,
  get_or, set, leb, max, ◌==◌, not, Bool-cases,
}
use blog_os.Alloc.{null}
use blog_os.Alloc.Layouts.{Layout, from_size_align}
use blog_os.Alloc.FixedSize.Methods.{
  FallbackHeap, FixedSizeBlockAllocator, block_sizes, list_index, position_ge, fallback_alloc,
  alloc_block, alloc, dealloc,
}

-- The size of the block that a layout gets: that of its class, or its own.
abbrev pub block_size_of : Layout → ℕ
block_size_of l = elim (list_index l) [ some i ↦ get_or block_sizes i 0 | none ↦ l.size ]

get_or-some : (xs : List ℕ) (i x : ℕ) → get_elem? xs i ≡ some x → get_or xs i 0 ≡ x
get_or-some [] i x e = absurd cc
get_or-some (y ∷ ys) zero x e = some-injective _ _ e
get_or-some (y ∷ ys) (suc i) x e = get_or-some ys i x e

expect-some : {A : Type 0} (o : Option A) (a : A) → expect o ≡ done a → o ≡ some a
expect-some none a e = absurd cc
expect-some (some b) a e = ap some (done-injective b a e)

pub class_size :
    (l : Layout) (i s : ℕ)
    → list_index l ≡ some i
    → get_elem? block_sizes i ≡ some s
    → block_size_of l ≡ s
class_size l i s e at = rw (block_size_of, e) (get_or-some block_sizes i s at)

position_ge-some :
    (n : ℕ) (xs : List ℕ) (i : ℕ) → position_ge n xs ≡ some i → (s : ℕ) × (get_elem? xs i ≡ some s)
position_ge-some n [] i e = absurd cc
position_ge-some n (x ∷ xs) i e = elim (Bool-cases (leb n x)) [
  | inl here ↦
      let zeroth : 0 ≡ i = some-injective _ _ (rw here at e) in
      (x, ap (get_elem? (x ∷ xs)) (sym zeroth))
  | inr not_here ↦
      let e' = rw not_here at e in
      elim (Option-cases (position_ge n xs)) [
        | inl none_found ↦ let bad = rw none_found at e' in absurd cc
        | inr (j, there) ↦
            let next : suc j ≡ i = some-injective _ _ (rw there at e') in
            let (s, at) = position_ge-some n xs j there in
            (s, ap (get_elem? (x ∷ xs)) (sym next) ∙ at)
      ]
]

small_class :
    (l : Layout) (i : ℕ) → list_index l ≡ some i → (s : ℕ) × (get_elem? block_sizes i ≡ some s)
unfolding list_index
small_class l i e = position_ge-some (max l.size l.align) block_sizes i e

pub own_size : (l : Layout) → list_index l ≡ none → l.size ≡ block_size_of l
own_size l e = rw (block_size_of, e) refl

from_size_align-size : (n m : ℕ) (l : Layout) → from_size_align n m ≡ some l → l.size ≡ n
from_size_align-size n m l e = elim (Bool-cases (leb (n + m) (2 ^ 63))) [
  | inl fits ↦ ap (λ (k : Layout). k.size) (sym (some-injective _ _ (rw fits at e)))
  | inr big ↦ let bad = rw big at e in absurd cc
]

module _ {H : Type 0} ⦃heap : FallbackHeap H⦄ where
  -- A pointer from the free list of the layout's class, or what the fallback heap gave for a layout
  -- of the block's size.
  pub data Allocated (a : FixedSizeBlockAllocator H) (l : Layout) (p : ℕ)
      : FixedSizeBlockAllocator H → Type 0 where
    popped :
        (i : ℕ) (next : List ℕ)
        → list_index l ≡ some i
        → get_elem? block_sizes i ≡ some (block_size_of l)
        → get_elem? a.list_heads i ≡ some (p ∷ next)
        → Allocated a l p (record a { list_heads = set a.list_heads i next })
    from_fallback :
        (l' : Layout) (o : Option ℕ) (h : H)
        → l'.size ≡ block_size_of l
        → heap.allocate_first_fit a.fallback_allocator l' ≡ done (o, h)
        → p ≡ (elim o [ none ↦ null | some ptr ↦ ptr ])
        → Allocated a l p (record a { fallback_allocator = h })

  -- The block goes to the free list of its class, or back to the fallback heap.
  pub data Freed (a : FixedSizeBlockAllocator H) (l : Layout) (p : ℕ)
      : FixedSizeBlockAllocator H → Type 0 where
    pushed :
        (i : ℕ) (head : List ℕ)
        → list_index l ≡ some i
        → get_elem? block_sizes i ≡ some (block_size_of l)
        → get_elem? a.list_heads i ≡ some head
        → Freed a l p (record a { list_heads = set a.list_heads i (p ∷ head) })
    to_fallback :
        (h : H)
        → l.size ≡ block_size_of l
        → heap.deallocate a.fallback_allocator p l ≡ done h
        → Freed a l p (record a { fallback_allocator = h })

  fallback_alloc-Allocated :
      (a : FixedSizeBlockAllocator H) (l l' : Layout) (r : ℕ × FixedSizeBlockAllocator H)
      → l'.size ≡ block_size_of l
      → fallback_alloc a l' ≡ done r
      → Allocated a l r.0 r.1
  unfolding fallback_alloc
  fallback_alloc-Allocated a l l' r e h =
      let ((o, heap'), given, last) =
        >>=-eq-done (heap.allocate_first_fit a.fallback_allocator l') _ h in
      subst (λ q. Allocated a l q.0 q.1) (done-injective _ _ last)
        (from_fallback l' o heap' e given refl)

  alloc_block-Allocated :
      (a : FixedSizeBlockAllocator H) (l : Layout) (i : ℕ) (head : List ℕ)
      (r : ℕ × FixedSizeBlockAllocator H)
      → list_index l ≡ some i
      → get_elem? a.list_heads i ≡ some head
      → alloc_block a i head ≡ done r
      → Allocated a l r.0 r.1
  unfolding alloc_block
  alloc_block-Allocated a l i [] r e at h =
      let (s, sized, rest) = >>=-eq-done (expect (get_elem? block_sizes i)) _ h in
      let (l', made, last) = >>=-eq-done (expect (from_size_align s s)) _ rest in
      fallback_alloc-Allocated a l l' r
        (from_size_align-size s s l' (expect-some _ l' made)
          ∙ sym (class_size l i s e (expect-some _ s sized)))
        last
  alloc_block-Allocated a l i (node ∷ next) r e at h =
      let (s, sized) = small_class l i e in
      subst (λ q. Allocated a l q.0 q.1) (done-injective _ _ h)
        (popped i next e (sized ∙ ap some (sym (class_size l i s e sized))) at)

  pub alloc-Allocated :
      (a : FixedSizeBlockAllocator H) (l : Layout) (r : ℕ × FixedSizeBlockAllocator H)
      → alloc a l ≡ done r
      → Allocated a l r.0 r.1
  unfolding alloc
  alloc-Allocated a l r h = elim (Option-cases (list_index l)) [
    | inl e ↦
        let went = rw (alloc, e) at h in
        let own = own_size l e in fallback_alloc-Allocated a l l r own went
    | inr (i, e) ↦
        let went = rw (alloc, e) at h in
        let (head, at, rest) = >>=-eq-done (expect (get_elem? a.list_heads i)) _ went in
        alloc_block-Allocated a l i head r e (expect-some _ head at) rest
  ]

  pub dealloc-Freed :
      (a a' : FixedSizeBlockAllocator H) (p : ℕ) (l : Layout)
      → dealloc a p l ≡ done a'
      → Freed a l p a'
  unfolding dealloc
  dealloc-Freed a a' p l h = elim (Option-cases (list_index l)) [
    | inl e ↦
        let went = rw (dealloc, e) at h in
        let (_, _, rest) = >>=-eq-done (assert (not (p == null))) _ went in
        let (h', taken, last) = >>=-eq-done (heap.deallocate a.fallback_allocator p l) _ rest in
        let own = own_size l e in
        subst (Freed a l p) (done-injective _ _ last) (to_fallback h' own taken)
    | inr (i, e) ↦
        let went = rw (dealloc, e) at h in
        let (head, at, rest) = >>=-eq-done (expect (get_elem? a.list_heads i)) _ went in
        let (s, sized, rest₁) = >>=-eq-done (expect (get_elem? block_sizes i)) _ rest in
        let (_, _, rest₂) = >>=-eq-done (assert (leb 8 s)) _ rest₁ in
        let (_, _, last) = >>=-eq-done (assert (leb 8 s)) _ rest₂ in
        let size = expect-some _ s sized in
        subst (Freed a l p) (done-injective _ _ last)
          (pushed i head e (size ∙ ap some (sym (class_size l i s e size))) (expect-some _ head at))
  ]
