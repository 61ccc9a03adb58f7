-- ===== src/Memory/Frames.antt =====
-- src/memory.rs: `BootInfoFrameAllocator`. The `bootloader` crate's `MemoryMap` is the list of its
-- regions, and a `PhysFrame` is made by a parameter.
use blog_os.Base.{
  ℕ, zero, suc, ◌+◌, ◌-◌, ◌/◌, List, [], ◌∷◌, ◌++◌, map, Option, none, some, if◌then◌else◌, Bool,
  Exec, done, ◌>>=◌,
}
use blog_os.Base.Words.{add_usize}

-- What the code reads of a `MemoryRegion`: the type, and the range of addresses.
pub record Region : Type 0 where
  pub is_usable : Bool
  pub start_addr : ℕ
  pub end_addr : ℕ

pub record BootInfoFrameAllocator : Type 0 where
  pub memory_map : List Region
  pub next : ℕ

-- `BootInfoFrameAllocator::init`
abbrev pub init : List Region → BootInfoFrameAllocator
init memory_map = record { memory_map = memory_map; next = 0 }

-- `count` addresses from `start` on, 4096 apart
abbrev pub steps : ℕ → ℕ → List ℕ
steps start zero = []
steps start (suc count) = start ∷ steps (start + 4096) count

-- `(start..end).step_by(4096)`
abbrev pub step_by : ℕ → ℕ → List ℕ
step_by start end = steps start ((end - start + 4095) / 4096)

-- the addresses of `usable_frames`
unfoldable pub frame_addresses : List Region → List ℕ
frame_addresses [] = []
frame_addresses (r ∷ rs) =
    if r.is_usable
    then step_by r.start_addr r.end_addr ++ frame_addresses rs
    else frame_addresses rs

-- `Iterator::nth` on a lazy iterator: the items before are made too, and a panic in one ends it.
abbrev pub nth : {F : Type 0} → List (Exec F) → ℕ → Exec (Option F)
nth [] n = done none
nth (item ∷ rest) zero = item >>= λ found. done (some found)
nth (item ∷ rest) (suc n) = item >>= λ passed. nth rest n

-- `containing_address` is `PhysFrame::containing_address(PhysAddr::new(addr))`, which panics where
-- `PhysAddr::new` does not take the number.
module _ {F : Type 0} (containing_address : ℕ → Exec F) where
  unfoldable pub usable_frames : BootInfoFrameAllocator → List (Exec F)
  usable_frames self = map containing_address (frame_addresses self.memory_map)

  unfoldable pub allocate_frame : BootInfoFrameAllocator → Exec (Option F × BootInfoFrameAllocator)
  allocate_frame self = do
    frame ← nth (usable_frames self) self.next
    next ← add_usize self.next 1
    done (frame, record self { next = next })
