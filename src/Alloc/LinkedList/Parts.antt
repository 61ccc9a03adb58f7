-- ===== src/Alloc/LinkedList/Parts.antt =====
-- The steps of the linked list allocator, one lemma for each function.
use native.Mathlib.Nat.{div-add-mod', mul-mod_left, pow-suc}
use blog_os.Base.{
  ℕ, zero, suc, ◌+◌, ◌*◌, ◌/◌, ◌%◌, ◌^◌, ◌≤◌, ◌<◌, ◌≡◌, refl, ap, ◌⊎◌, inl, inr, max, List, [], ◌∷◌,
  Option, none, some, All, arith, done, ok, err, Bool-cases, ltb, leb,
}
use blog_os.Base.Words.{IsPowerOfTwo, IsPowerOfTwo-pos}
use blog_os.Alloc.{align_up_lem, align_up_aligned}
use blog_os.Alloc.Layouts.{Layout, IsLayout, padded, padded_lem}
use blog_os.Alloc.Blocks.{Block, block, end_of, IsWithin, Removed, first, later}
use blog_os.Alloc.LinkedList.Methods.{
  LinkedListAllocator, add_free_region, alloc_from_region, find_loop, size_align,
}

-- A free region: it can hold a node, and lies in the heap from `lo` to `hi`.
pub record IsRegion (lo hi : ℕ) (r : Block) : Type 0 where
  pub within : IsWithin lo hi r
  pub aligned : r.addr % 8 ≡ 0
  pub holds_node : 16 ≤ r.size

pub eight-IsPowerOfTwo : IsPowerOfTwo 8
eight-IsPowerOfTwo = record { exponent = 3; small = omega arith; power = refl }

-- The assertions of `add_free_region` hold for an aligned region that can hold a node.
pub add_free_region_lem :
    (self : LinkedListAllocator) (addr size : ℕ)
    → addr < 2 ^ 63
    → addr % 8 ≡ 0
    → 16 ≤ size
    → add_free_region self addr size ≡ done (record { regions = block addr size ∷ self.regions })
unfolding add_free_region
add_free_region_lem self addr size room al fits =
    ground (arith, align_up_aligned addr 8 eight-IsPowerOfTwo (omega arith) al)

-- Where an allocation of `size` bytes may start in a region: what is left behind it is nothing,
-- or holds a node.
pub record FitsAt (r : Block) (size align start : ℕ) : Type 0 where
  pub above : r.addr ≤ start
  pub below : start + size ≤ end_of r
  pub aligned : start % align ≡ 0
  pub rest : (start + size ≡ end_of r) ⊎ (start + size + 16 ≤ end_of r)

module _ (lo hi size align : ℕ) (room : hi < 2 ^ 63) (pow : IsPowerOfTwo align)
    (small : align ≤ 2 ^ 63) where
  pub alloc_from_region_lem :
      (r : Block)
      → IsWithin lo hi r
      → (alloc_from_region r size align ≡ done (err tt))
        ⊎ ((start : ℕ) × (alloc_from_region r size align ≡ done (ok start))
            × FitsAt r size align start)
  unfolding alloc_from_region
  alloc_from_region_lem r w =
      let (s, eq, above, near, al) = align_up_lem r.addr align pow (omega (arith, w.below)) in
      elim (Bool-cases (ltb (end_of r) (s + size))) [
        | inl short ↦ inl (ground (arith, eq))
        | inr long ↦ elim (Bool-cases (ltb (s + size) (end_of r))) [
          | inl over ↦ elim (Bool-cases (ltb (end_of r) (s + size + 16))) [
            | inl sliver ↦ inl (ground (arith, eq, w.below))
            | inr fits ↦ inr (
              s,
              ground (arith, eq, w.below),
              record {
                above = above;
                below = ground arith;
                aligned = al;
                rest = inr (ground arith);
              },
            )
          ]
          | inr exact ↦ inr (
            s,
            ground (arith, eq, w.below),
            record { above = above; below = ground arith; aligned = al; rest = inl (ground arith) },
          )
        ]
      ]

-- What `find_region` returns: nothing if every region is refused, or else a region that is taken
-- out of the list, and where in it the block starts.
pub data Found (size align : ℕ) (rs : List Block) : Option (Block × ℕ) → List Block → Type 0 where
  refused :
      All (λ r. alloc_from_region r size align ≡ done (err tt)) rs → Found size align rs none rs
  taken :
      {r : Block} {start : ℕ} {rest : List Block}
      → Removed r rs rest
      → FitsAt r size align start
      → alloc_from_region r size align ≡ done (ok start)
      → Found size align rs (some (r, start)) rest

module _ (lo hi size align : ℕ) (room : hi < 2 ^ 63) (pow : IsPowerOfTwo align)
    (small : align ≤ 2 ^ 63) where
  Found-cons :
      (r : Block) (rs : List Block) (o : Option (Block × ℕ)) (rest : List Block)
      → alloc_from_region r size align ≡ done (err tt)
      → Found size align rs o rest
      → Found size align (r ∷ rs) o (r ∷ rest)
  Found-cons r rs none rest e (refused h) = refused (e, h)
  Found-cons r rs (some (q, start)) rest e (taken rem fits at) = taken (later rem) fits at

  pub find_loop_lem :
      (rs : List Block)
      → All (IsWithin lo hi) rs
      → (o : Option (Block × ℕ)) × (rest : List Block) × (find_loop rs size align ≡ done (o, rest))
        × Found size align rs o rest
  unfolding find_loop
  find_loop_lem [] w = (none, [], refl, refused tt)
  find_loop_lem (r ∷ rs) w =
      let (o, rest, eq, f) = find_loop_lem rs w.1 in
      elim (alloc_from_region_lem lo hi size align room pow small r w.0) [
        | inl no_room ↦ (o, r ∷ rest, rw (no_room, eq), Found-cons r rs o rest no_room f)
        | inr (start, at, fits) ↦ (some (r, start), rs, rw at, taken first fits at)
      ]

eight-mod : (a : ℕ) → IsPowerOfTwo a → 8 ≤ a → a % 8 ≡ 0
eight-mod a p h = rw p.power (go p.exponent (rw p.power at h))
  where
    go : (k : ℕ) → 8 ≤ 2 ^ k → 2 ^ k % 8 ≡ 0
    go zero q = absurd (omega arith)
    go (suc zero) q = absurd (omega arith)
    go (suc (suc zero)) q = absurd (omega arith)
    go (suc (suc (suc k))) q =
        omega (arith, pow-suc 2 (suc (suc k)), pow-suc 2 (suc k), pow-suc 2 k)

-- A multiple of a multiple of 8 is a multiple of 8.
pub mod-eight : (x a : ℕ) → a % 8 ≡ 0 → x % a ≡ 0 → x % 8 ≡ 0
mod-eight x a ha hx =
    let e : x ≡ x / a * (a / 8) * 8 =
      product (x / a) a (a / 8) x (omega (arith, div-add-mod' x a)) (omega arith) in
    rw e (mul-mod_left (x / a * (a / 8)) 8)
  where
    product : (q b c y : ℕ) → y ≡ q * b → b ≡ c * 8 → y ≡ q * c * 8
    product q b c y h k = omega (arith, ap (λ t. q * t) k)

max-IsPowerOfTwo : (a : ℕ) → IsPowerOfTwo a → IsPowerOfTwo (max a 8)
max-IsPowerOfTwo a p = elim (Bool-cases (leb 8 a)) [
  | inl big ↦ let e : max a 8 ≡ a = ground arith in rw e p
  | inr small ↦ let e : max a 8 ≡ 8 = ground arith in rw e eight-IsPowerOfTwo
]

-- The size and alignment that `size_align` makes of a layout.
pub record Adjusted (l : Layout) (size align : ℕ) : Type 0 where
  pub power : IsPowerOfTwo align
  pub small : align ≤ 2 ^ 63
  pub node_aligned : align % 8 ≡ 0
  pub suits : align ≡ max l.align 8
  pub enough : l.size ≤ size
  pub holds_node : 16 ≤ size
  pub whole : size % 8 ≡ 0

pub size_align_lem :
    (l : Layout)
    → IsLayout l
    → l.size + 8 ≤ 2 ^ 63
    → (size : ℕ) × (align : ℕ) × (size_align l ≡ done (size, align)) × Adjusted l size align
unfolding size_align
size_align_lem l w h =
    let align : ℕ = max l.align 8 in
    let pow : IsPowerOfTwo align = max-IsPowerOfTwo l.align w.power in
    let pads = padded_lem l.size align (IsPowerOfTwo-pos pow) in
    let eight : align % 8 ≡ 0 = eight-mod align pow (omega arith) in
    (
      max (padded l.size align) 16,
      align,
      ground (arith, w.fits),
      record {
        power = pow;
        small = omega (arith, w.fits);
        node_aligned = eight;
        suits = refl;
        enough = omega (arith, pads.0);
        holds_node = omega arith;
        whole = omega (arith, mod-eight (padded l.size align) align eight pads.2);
      },
    )
