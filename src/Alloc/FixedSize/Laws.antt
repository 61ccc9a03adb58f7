-- ===== src/Alloc/FixedSize/Laws.antt =====
-- The size classes, and the free lists as stacks.
use blog_os.Base.{
  ℕ, zero, suc, ◌≤◌, ◌<◌, ◌≡◌, refl, ap, ◌∙◌, max, List, [], ◌∷◌, Option, none, some, arith, length,
  get_elem?, set, leb, done, if◌then◌else◌, Bool, true, false, get_elem?-set_self, get_elem?-lt,
  some-injective, sym, All, All-get_elem?, le→leb,
}
use blog_os.Alloc.Layouts.{Layout}
use blog_os.Alloc.FixedSize.Methods.{
  FallbackHeap, block_sizes, FixedSizeBlockAllocator, position_ge, list_index, alloc, alloc_block,
  dealloc,
}

-- The first size that is large enough, if there is one.
pub data Position (required : ℕ) : List ℕ → Option ℕ → Type 0 where
  nowhere : Position required [] none
  here : {s : ℕ} {rest : List ℕ} → required ≤ s → Position required (s ∷ rest) (some 0)
  missing :
      {s : ℕ} {rest : List ℕ}
      → s < required
      → Position required rest none
      → Position required (s ∷ rest) none
  further :
      {s i : ℕ} {rest : List ℕ}
      → s < required
      → Position required rest (some i)
      → Position required (s ∷ rest) (some (suc i))

Position-later :
    (r s : ℕ) (rest : List ℕ) (o : Option ℕ) (b : Bool)
    → leb r s ≡ b
    → Position r rest o
    → Position r (s ∷ rest) (if b then some 0 else elim o [ none ↦ none | some i ↦ some (suc i) ])
Position-later r s rest o true h p = here (ground (arith, h))
Position-later r s rest none false h p = missing (ground (arith, h)) p
Position-later r s rest (some i) false h p = further (ground (arith, h)) p

position_ge_lem : (r : ℕ) (sizes : List ℕ) → Position r sizes (position_ge r sizes)
position_ge_lem r [] = nowhere
position_ge_lem r (s ∷ rest) =
    Position-later r s rest (position_ge r rest) (leb r s) refl (position_ge_lem r rest)

-- The class of a layout is the first block size that holds both its size and its alignment; there
-- is no class exactly when none does.
pub list_index_lem : (l : Layout) → Position (max l.size l.align) block_sizes (list_index l)
unfolding list_index
list_index_lem l = position_ge_lem (max l.size l.align) block_sizes

pub Position-lt :
    {r : ℕ} (sizes : List ℕ) (o : Option ℕ) (i : ℕ)
    → Position r sizes o
    → o ≡ some i
    → i < length sizes
Position-lt [] none i nowhere e = cc
Position-lt [] (some _) i p e = elim p [ ]
Position-lt (s ∷ rest) (some zero) i (here h) e = ground (arith, e)
Position-lt (s ∷ rest) none i (missing h p) e = cc
Position-lt (s ∷ rest) (some (suc j)) zero (further h p) e = ground (arith, e)
Position-lt (s ∷ rest) (some (suc j)) (suc i) (further h p) e =
    let q = Position-lt rest (some j) i p (ground (arith, e)) in omega (arith, q)

sizes_hold_nodes : All (λ s. 8 ≤ s) block_sizes
sizes_hold_nodes = (
  omega arith,
  (
    omega arith,
    (
      omega arith,
      (omega arith, (omega arith, (omega arith, (omega arith, (omega arith, (omega arith, tt)))))),
    ),
  ),
)

set-set {ℓ} : {A : Type ℓ} (xs : List A) (i : ℕ) (v w : A) → set (set xs i v) i w ≡ set xs i w
set-set [] i v w = refl
set-set (x ∷ xs) zero v w = refl
set-set (x ∷ xs) (suc i) v w = ap (λ ys. x ∷ ys) (set-set xs i v w)

set_same {ℓ} :
    {A : Type ℓ} (xs : List A) (i : ℕ) (v : A) → get_elem? xs i ≡ some v → set xs i v ≡ xs
set_same [] i v e = refl
set_same (x ∷ xs) zero v e = ap (λ y. y ∷ xs) (some-injective _ _ (sym e))
set_same (x ∷ xs) (suc i) v e = ap (λ ys. x ∷ ys) (set_same xs i v e)

module _ {H : Type 0} ⦃heap : FallbackHeap H⦄ where
  -- Freeing a block of a class pushes it on the free list of the class, and changes nothing else.
  pub dealloc_class :
      (a : FixedSizeBlockAllocator H) (ptr : ℕ) (l : Layout) (i : ℕ) (head : List ℕ)
      → list_index l ≡ some i
      → get_elem? a.list_heads i ≡ some head
      → dealloc a ptr l ≡ done (record a { list_heads = set a.list_heads i (ptr ∷ head) })
  unfolding dealloc
  dealloc_class a ptr l i head hi hh =
      let (s, hs) =
        get_elem?-lt block_sizes i
          (Position-lt block_sizes (list_index l) i (list_index_lem l) hi) in
      let big = All-get_elem? (λ s. 8 ≤ s) block_sizes i sizes_hold_nodes hs in
      let test : leb 8 s ≡ true = le→leb 8 s big in rw (dealloc, hi, hh, hs, test) refl

  alloc_top :
      (b : FixedSizeBlockAllocator H) (ptr : ℕ) (l : Layout) (i : ℕ) (head : List ℕ)
      → list_index l ≡ some i
      → get_elem? b.list_heads i ≡ some (ptr ∷ head)
      → alloc b l ≡ done (ptr, record b { list_heads = set b.list_heads i head })
  unfolding alloc alloc_block
  alloc_top b ptr l i head hi hh = rw (alloc, hi, hh) refl

  -- With nine free lists, memory freed with a layout of a class is what the next allocation of the class hands out, and
  -- the two calls together leave the allocator as it was.
  pub alloc-dealloc :
      (a : FixedSizeBlockAllocator H) (ptr : ℕ) (l : Layout) (i : ℕ)
      → length a.list_heads ≡ 9
      → list_index l ≡ some i
      → (b : FixedSizeBlockAllocator H) × (dealloc a ptr l ≡ done b)
        × (alloc b l ≡ done (ptr, a))
        × (b.fallback_allocator ≡ a.fallback_allocator)
  alloc-dealloc a ptr l i hn hi =
      let i<9 = Position-lt block_sizes (list_index l) i (list_index_lem l) hi in
      let (head, hh) = get_elem?-lt a.list_heads i (omega (arith, i<9, hn)) in
      let b : FixedSizeBlockAllocator H = record a {
        list_heads = set a.list_heads i (ptr ∷ head);
      } in
      let top = get_elem?-set_self a.list_heads i (ptr ∷ head) (omega (arith, i<9, hn)) in
      let restored : set (set a.list_heads i (ptr ∷ head)) i head ≡ a.list_heads =
        set-set a.list_heads i (ptr ∷ head) head ∙ set_same a.list_heads i head hh in
      (
        b,
        dealloc_class a ptr l i head hi hh,
        alloc_top b ptr l i head hi top
            ∙ ap (λ hs. done (ptr, record a { list_heads = hs })) restored,
        refl,
      )
