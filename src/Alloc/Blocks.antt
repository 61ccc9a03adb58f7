-- ===== src/Alloc/Blocks.antt =====
-- Blocks of memory: address and size, and when blocks do not overlap.
use blog_os.Base.{
  ◌++◌, ℕ, ◌+◌, ◌≤◌, ◌≡◌, List, [], ◌∷◌, ◌⊎◌, inl, inr, All, All-map, arith, suc, ap, refl, length,
}

pub record Block : Type 0 where
  pub addr : ℕ
  pub size : ℕ

abbrev pub block : ℕ → ℕ → Block
block addr size = record { addr = addr; size = size }

abbrev pub end_of : Block → ℕ
end_of b = b.addr + b.size

-- The blocks have no byte in common.
abbrev pub Apart : Block → Block → Type 0
Apart a b = (end_of a ≤ b.addr) ⊎ (end_of b ≤ a.addr)

abbrev pub AllApart : List Block → Type 0
AllApart [] = Unit {0}
AllApart (b ∷ bs) = All (Apart b) bs × AllApart bs

-- The block lies between `lo` and `hi`.
pub record IsWithin (lo hi : ℕ) (b : Block) : Type 0 where
  pub above : lo ≤ b.addr
  pub below : end_of b ≤ hi

pub Apart-sym : (a b : Block) → Apart a b → Apart b a
Apart-sym a b (inl h) = inr h
Apart-sym a b (inr h) = inl h

-- A list without one of its elements.
pub data Removed {ℓ} {A : Type ℓ} (x : A) : List A → List A → Type ℓ where
  first : {xs : List A} → Removed x (x ∷ xs) xs
  later : {y : A} {xs ys : List A} → Removed x xs ys → Removed x (y ∷ xs) (y ∷ ys)

pub Removed-All {ℓ κ} :
    {A : Type ℓ} {x : A} {xs ys : List A} (P : A → Type κ)
    → Removed x xs ys
    → All P xs
    → P x × All P ys
Removed-All P first h = h
Removed-All P (later r) h = let (p, q) = Removed-All P r h.1 in (p, (h.0, q))

pub Removed-AllApart :
    {x : Block} {xs ys : List Block}
    → Removed x xs ys
    → AllApart xs
    → All (Apart x) ys × AllApart ys
Removed-AllApart first h = h
Removed-AllApart {x} (later {y} r) h =
    let (p, q) = Removed-AllApart r h.1 in
    let (a, rest) = Removed-All (Apart y) r h.0 in ((Apart-sym y x a, p), (rest, q))

-- Blocks before and behind.
pub Removed-behind :
    {x : Block} (zs : List Block) {xs ys : List Block}
    → Removed x xs ys
    → Removed x (zs ++ xs) (zs ++ ys)
Removed-behind [] r = r
Removed-behind (z ∷ zs) r = later (Removed-behind zs r)

pub Removed-before :
    {x : Block} {xs ys : List Block} (zs : List Block)
    → Removed x xs ys
    → Removed x (xs ++ zs) (ys ++ zs)
Removed-before zs first = first
Removed-before zs (later r) = later (Removed-before zs r)

pub Removed-All-back :
    {x : Block} {xs ys : List Block} (P : Block → Type 0)
    → Removed x xs ys
    → P x
    → All P ys
    → All P xs
Removed-All-back P first p h = (p, h)
Removed-All-back P (later r) p h = (h.0, Removed-All-back P r p h.1)

pub Removed-AllApart-back :
    {x : Block} {xs ys : List Block}
    → Removed x xs ys
    → All (Apart x) ys
    → AllApart ys
    → AllApart xs
Removed-AllApart-back first a h = (a, h)
Removed-AllApart-back {x} (later {y} r) a h =
    (Removed-All-back (Apart y) r (Apart-sym x y a.0) h.0, Removed-AllApart-back r a.1 h.1)

pub Removed-length {ℓ} :
    {A : Type ℓ} {x : A} {xs ys : List A} → Removed x xs ys → length xs ≡ suc (length ys)
Removed-length first = refl
Removed-length (later r) = ap suc (Removed-length r)

-- A block that lies above everything is apart from it.
pub above-Apart :
    (lo hi : ℕ) (b : Block) (bs : List Block)
    → hi ≤ b.addr
    → All (IsWithin lo hi) bs
    → All (Apart b) bs
above-Apart lo hi b bs h w =
    All-map (IsWithin lo hi) (Apart b) bs (λ c i. inr (omega (arith, i.below))) w

pub IsWithin-widen :
    (lo hi hi' : ℕ) (bs : List Block)
    → hi ≤ hi'
    → All (IsWithin lo hi) bs
    → All (IsWithin lo hi') bs
IsWithin-widen lo hi hi' bs h w =
    All-map (IsWithin lo hi) (IsWithin lo hi') bs
      (λ c i. record { above = i.above; below = omega (arith, i.below) }) w
