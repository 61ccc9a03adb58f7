-- ===== src/Tests/Frames.antt =====
-- The theorems of src/memory.rs on a small machine.
use blog_os.Base.{
  ℕ, ◌+◌, ◌-◌, ◌*◌, ◌/◌, ◌%◌, ◌^◌, ◌<◌, ltb, ◌≡◌, ◌↔◌, ◌==◌, refl, arith, List, [], ◌∷◌, All,
  Option, some, get_elem?, length, Exec, done, panic, ok, err, if◌then◌else◌, true, false,
}
use blog_os.Memory.Frames.{Region, BootInfoFrameAllocator, init}
use blog_os.Memory.Addresses.{IsUsable, in_first, in_rest, InOrder, Ascend}
use blog_os.Memory.Usable.{calls, made, calls_lem}
use blog_os.Memory.Paging.{
  Mmu, Leads, frame_not_present, table_indexes, walk, physical_address, translate_addr,
  translate_addr_lem,
}

-- Two usable frames, a reserved one, and a usable part of one.
abbrev memory_map : List Region
memory_map =
    record { is_usable = true; start_addr = 4096; end_addr = 12288 }
    ∷ record { is_usable = false; start_addr = 12288; end_addr = 16384 }
    ∷ record { is_usable = true; start_addr = 16384; end_addr = 16484 }
    ∷ []

-- The crate's check and rounding.
abbrev containing_address : ℕ → Exec ℕ
containing_address addr = if ltb addr (2 ^ 52) then done (addr / 4096 * 4096) else panic

memory_map_low : (a : ℕ) → IsUsable a memory_map → containing_address a ≡ done (a / 4096 * 4096)
memory_map_low a (in_first usable j e lt) = ground arith
memory_map_low a (in_rest (in_first usable j e lt)) = absurd cc
memory_map_low a (in_rest (in_rest (in_first usable j e lt))) = ground arith
memory_map_low a (in_rest (in_rest (in_rest u))) = elim u [ ]

memory_map-InOrder : InOrder 0 memory_map
memory_map-InOrder = omega arith

calls_lem_example :
    (addrs : List ℕ) × (frames : List (Option ℕ)) × (self : BootInfoFrameAllocator) × (calls
        containing_address 4
        (init memory_map)
      ≡ done (frames, self))
    × (length frames ≡ 4)
    × ((i : ℕ)
        → i < 4
        → get_elem? frames i ≡ some (made (λ a. a / 4096 * 4096) (get_elem? addrs i)))
    × All (λ a. IsUsable a memory_map) addrs
    × ((a : ℕ) → IsUsable a memory_map → (i : ℕ) × (get_elem? addrs i ≡ some a))
    × Ascend 0 addrs
calls_lem_example =
    calls_lem containing_address (λ a. a / 4096 * 4096) memory_map 4 memory_map-InOrder
      memory_map_low (omega arith)

-- Entry 1 of each table leads to the next table, and no other entry is present. The physical memory
-- is behind 2 ^ 40.
abbrev mmu : Mmu
mmu = record {
  level_4_table_frame = 0;
  entry_frame =
      λ table i. if i == 1 then ok (table - 1099511627776 + 4096) else err frame_not_present;
  is_virtual = λ a. ltb a (2 ^ 47);
  is_physical = λ a. ltb a (2 ^ 52);
  p4_index = λ v. v / 2 ^ 39 % 512;
  p3_index = λ v. v / 2 ^ 30 % 512;
  p2_index = λ v. v / 2 ^ 21 % 512;
  p1_index = λ v. v / 2 ^ 12 % 512;
  page_offset = λ v. v % 2 ^ 12;
  p4_index_lem = λ v. refl;
  p3_index_lem = λ v. refl;
  p2_index_lem = λ v. refl;
  p1_index_lem = λ v. refl;
  page_offset_lem = λ v. refl;
}

-- Part 1 at each level, and the offset 8.
abbrev mapped : ℕ
mapped = 2 ^ 39 + 2 ^ 30 + 2 ^ 21 + 2 ^ 12 + 8

mapped_translates : translate_addr mmu mapped (2 ^ 40) ≡ done (some 16392)
unfolding translate_addr walk table_indexes physical_address
mapped_translates = refl

translate_addr_lem_example : (translate_addr mmu mapped (2 ^ 40) ≡ done (some 16392)) ↔ (
    (frame : ℕ) × Leads mmu (2 ^ 40) mapped 4 0 frame
    × (16392 ≡ frame + mapped % 4096)
    × (16392 < 2 ^ 64)
    × (ltb 16392 (2 ^ 52) ≡ true))
translate_addr_lem_example = translate_addr_lem mmu mapped (2 ^ 40) 16392
