-- ===== src/Memory/Setup.antt =====
-- src/memory.rs: `init`, which finds the active page table, and `create_example_mapping`. The
-- `x86_64` crate's `OffsetPageTable::new` is a parameter.
use blog_os.Base.{ℕ, ◌/◌, Option, none, Exec, done, ◌>>=◌, ◌>>◌, assert, expect_ok}
use blog_os.Base.Words.{add_usize}
use blog_os.Virtio.Hal.{Addresses}
use blog_os.Alloc.Start.{Paging}

-- `active_level_4_table`: where the table stands; `phys` is the address in the register CR3.
unfoldable pub active_level_4_table : Addresses → ℕ → ℕ → Exec ℕ
active_level_4_table addresses phys physical_memory_offset = do
  virt ← add_usize physical_memory_offset phys
  assert (addresses.is_virtual virt)
  done virt

-- `init`
unfoldable pub init : {M : Type 0} → Addresses → (ℕ → ℕ → M) → ℕ → ℕ → Exec M
init addresses offset_page_table phys physical_memory_offset = do
  level_4_table ← active_level_4_table addresses phys physical_memory_offset
  done (offset_page_table level_4_table physical_memory_offset)

-- `EmptyFrameAllocator::allocate_frame`
abbrev pub empty_allocate_frame : {F : Type 0} → Option F
empty_allocate_frame = none

-- `create_example_mapping`: the page is mapped to the frame of the screen.
unfoldable pub create_example_mapping : {M A E : Type 0} → Paging M A E → ℕ → M → A → Exec (M × A)
create_example_mapping paging page mapper frame_allocator =
    let (map_to_result, mapper', frame_allocator') =
      paging.map_to mapper page (0xb8000 / 4096) frame_allocator in
    expect_ok map_to_result >>= λ u. done (mapper', frame_allocator')
