-- ===== src/Memory/Addresses.antt =====
-- src/memory.rs: the addresses of the usable frames.
use blog_os.Base.{
  ℕ, zero, suc, ◌+◌, ◌-◌, ◌*◌, ◌/◌, ◌<◌, ◌≡◌, refl, ap, ◌∙◌, List, [], ◌∷◌, ◌++◌, some, Bool-cases,
  inl, inr, ◌≤◌, get_elem?, if◌then◌else◌, Bool, true, false, arith, All, All-append, All-map,
}
use blog_os.Memory.Frames.{Region, steps, step_by, frame_addresses}

-- The address lies in a usable region of the map, a whole number of frames from its start.
pub data IsUsable (a : ℕ) : List Region → Type 0 where
  in_first :
      {r : Region} {rs : List Region}
      → r.is_usable ≡ true
      → (j : ℕ) → a ≡ r.start_addr + j * 4096
      → a < r.end_addr
      → IsUsable a (r ∷ rs)
  in_rest : {r : Region} {rs : List Region} → IsUsable a rs → IsUsable a (r ∷ rs)

every_step :
    (start count : ℕ) (k : ℕ) (r : Region) (rs : List Region)
    → r.is_usable ≡ true
    → start ≡ r.start_addr + k * 4096
    → (0 < count → start + count * 4096 < r.end_addr + 4096)
    → All (λ a. IsUsable a (r ∷ rs)) (steps start count)
every_step start zero k r rs u e h = tt
every_step start (suc count) k r rs u e h =
    let low = h (omega arith) in
    (
      in_first u k e (omega (arith, low)),
      every_step (start + 4096) count (k + 1) r rs u (omega arith) (λ pos. omega (arith, low)),
    )

-- Every address that is made into a frame lies in a usable region of the memory map, a whole
-- number of frames from its start.
pub frame_addresses-IsUsable : (rs : List Region) → All (λ a. IsUsable a rs) (frame_addresses rs)
unfolding frame_addresses
frame_addresses-IsUsable [] = tt
frame_addresses-IsUsable (r ∷ rs) =
    choose r.is_usable
      (λ u.
        every_step r.start_addr ((r.end_addr - r.start_addr + 4095) / 4096) 0 r rs u (omega arith)
          (λ pos. omega arith))
      (All-map (λ a. IsUsable a rs) (λ a. IsUsable a (r ∷ rs)) (frame_addresses rs)
        (λ a u. in_rest u) (frame_addresses-IsUsable rs))
  where
    choose :
        (u : Bool)
        → (u ≡ true → All (λ a. IsUsable a (r ∷ rs)) (step_by r.start_addr r.end_addr))
        → All (λ a. IsUsable a (r ∷ rs)) (frame_addresses rs)
        → All
            (λ a. IsUsable a (r ∷ rs))
            (if u
              then step_by r.start_addr r.end_addr ++ frame_addresses rs
              else frame_addresses rs)
    choose true h k = All-append (λ a. IsUsable a (r ∷ rs)) _ _ (h refl) k
    choose false h k = k

-- The numbers ascend, from one that is at least `low`.
abbrev pub Ascend : ℕ → List ℕ → Type 0
Ascend low [] = Unit {0}
Ascend low (a ∷ addrs) = (low ≤ a) × Ascend (a + 1) addrs

-- The regions lie one behind the other, from `low` on, addrs in the bootloader's map.
abbrev pub InOrder : ℕ → List Region → Type 0
InOrder low [] = Unit {0}
InOrder low (r ∷ rs) = (low ≤ r.start_addr) × (r.start_addr ≤ r.end_addr) × InOrder r.end_addr rs

Ascend-le : (low high : ℕ) (addrs : List ℕ) → low ≤ high → Ascend high addrs → Ascend low addrs
Ascend-le low high [] le h = tt
Ascend-le low high (a ∷ addrs) le (h, more) = (omega arith, more)

steps-Ascend :
    (low start count high : ℕ) (rest : List ℕ)
    → low ≤ start
    → low ≤ high
    → (0 < count → start + count * 4096 < high + 4096)
    → Ascend high rest
    → Ascend low (steps start count ++ rest)
steps-Ascend low start zero high rest le le' h more = Ascend-le low high rest le' more
steps-Ascend low start (suc count) high rest le le' h more =
    let last = h (omega arith) in
    (
      le,
      steps-Ascend (start + 1) (start + 4096) count high rest (omega arith) (omega (arith, last))
          (λ pos. omega (arith, last)) more,
    )

pub frame_addresses-Ascend :
    (low : ℕ) (rs : List Region) → InOrder low rs → Ascend low (frame_addresses rs)
unfolding frame_addresses
frame_addresses-Ascend low [] h = tt
frame_addresses-Ascend low (r ∷ rs) (above, size, later) =
    let rest = frame_addresses-Ascend r.end_addr rs later in
    elim (Bool-cases r.is_usable) [
      | inl usable ↦
          rw (frame_addresses, usable)
            (steps-Ascend low r.start_addr ((r.end_addr - r.start_addr + 4095) / 4096) r.end_addr
              (frame_addresses rs) above (omega arith) (λ pos. omega arith) rest)
      | inr other ↦ rw (frame_addresses, other) (Ascend-le low r.end_addr _ (omega arith) rest)
    ]

steps_at :
    (start count j : ℕ) (rest : List ℕ)
    → j < count
    → get_elem? (steps start count ++ rest) j ≡ some (start + j * 4096)
steps_at start zero j rest h = absurd (omega arith)
steps_at start (suc count) zero rest h = ap some (omega arith)
steps_at start (suc count) (suc j) rest h =
    steps_at (start + 4096) count j rest (omega arith) ∙ ap some (omega arith)

steps_behind :
    (start count i : ℕ) (rest : List ℕ)
    → get_elem? (steps start count ++ rest) (count + i) ≡ get_elem? rest i
steps_behind start zero i rest = ap (get_elem? rest) (omega arith)
steps_behind start (suc count) i rest =
    let count' : suc count + i ≡ suc (count + i) = omega arith in
    ap (get_elem? (steps start (suc count) ++ rest)) count'
    ∙ steps_behind (start + 4096) count i rest

-- Every usable address is among them.
pub IsUsable-frame_addresses :
    (a : ℕ) (rs : List Region)
    → IsUsable a rs
    → (i : ℕ) × (get_elem? (frame_addresses rs) i ≡ some a)
unfolding frame_addresses
IsUsable-frame_addresses a [] u = elim u [ ]
IsUsable-frame_addresses a (r ∷ rs) (in_first usable j e lt) = (
  j,
  rw (frame_addresses, usable, e)
      (steps_at r.start_addr ((r.end_addr - r.start_addr + 4095) / 4096) j (frame_addresses rs)
        (omega (arith, e))),
)
IsUsable-frame_addresses a (r ∷ rs) (in_rest later) =
    let (i, at) = IsUsable-frame_addresses a rs later in
    elim (Bool-cases r.is_usable) [
      | inl usable ↦ (
        (r.end_addr - r.start_addr + 4095) / 4096 + i,
        rw (frame_addresses, usable)
            (steps_behind r.start_addr ((r.end_addr - r.start_addr + 4095) / 4096) i
                (frame_addresses rs)
              ∙ at),
      )
      | inr other ↦ (i, rw (frame_addresses, other) at)
    ]
