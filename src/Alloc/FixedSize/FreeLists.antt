-- ===== src/Alloc/FixedSize/FreeLists.antt =====
-- src/allocator/fixed_size_block.rs: the blocks in the free lists.
use blog_os.Base.{
  ℕ, zero, suc, ◌≡◌, sym, List, [], ◌∷◌, ◌++◌, map, some, some-injective, get_elem?, set,
}
use blog_os.Alloc.Blocks.{Block, block, Removed, first, Removed-behind}

-- The blocks in the free lists, each of its class's size.
abbrev pub free_of : List ℕ → List (List ℕ) → List Block
free_of [] heads = []
free_of (s ∷ sizes) [] = []
free_of (s ∷ sizes) (head ∷ heads) = map (λ p. block p s) head ++ free_of sizes heads

-- Taking the first pointer of a list removes its block from the free ones.
pub free_of-pop :
    (sizes : List ℕ) (heads : List (List ℕ)) (i s p : ℕ) (next : List ℕ)
    → get_elem? sizes i ≡ some s
    → get_elem? heads i ≡ some (p ∷ next)
    → Removed (block p s) (free_of sizes heads) (free_of sizes (set heads i next))
free_of-pop [] heads i s p next e at = absurd cc
free_of-pop (t ∷ sizes) [] i s p next e at = absurd cc
free_of-pop (t ∷ sizes) (head ∷ heads) zero s p next e at =
    let size : t ≡ s = some-injective _ _ e in
    let list : head ≡ p ∷ next = some-injective _ _ at in rw (list, sym size) first
free_of-pop (t ∷ sizes) (head ∷ heads) (suc i) s p next e at =
    Removed-behind (map (λ q. block q t) head) (free_of-pop sizes heads i s p next e at)

-- Putting one in front adds its block.
pub free_of-push :
    (sizes : List ℕ) (heads : List (List ℕ)) (i s p : ℕ) (head : List ℕ)
    → get_elem? sizes i ≡ some s
    → get_elem? heads i ≡ some head
    → Removed (block p s) (free_of sizes (set heads i (p ∷ head))) (free_of sizes heads)
free_of-push [] heads i s p head e at = absurd cc
free_of-push (t ∷ sizes) [] i s p head e at = absurd cc
free_of-push (t ∷ sizes) (old ∷ heads) zero s p head e at =
    let size : t ≡ s = some-injective _ _ e in
    let list : old ≡ head = some-injective _ _ at in rw (list, sym size) first
free_of-push (t ∷ sizes) (old ∷ heads) (suc i) s p head e at =
    Removed-behind (map (λ q. block q t) old) (free_of-push sizes heads i s p head e at)
