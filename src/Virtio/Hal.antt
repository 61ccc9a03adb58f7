-- ===== src/Virtio/Hal.antt =====
-- src/virtio/mod.rs: `OsHal`, over the frame allocator and the address translation of
-- src/memory.rs.
use blog_os.Base.{
  ℕ, suc, ◌+◌, ◌^◌, ◌≤◌, ◌<◌, ◌≡◌, ◌≢◌, refl, ap, sym, ◌∙◌, List, Option, none, some, Exec, done,
  panic, ◌>>=◌, ◌>>◌, assert, expect, leb, ltb, ◌==◌, not, if◌then◌else◌, Bool, true, false, arith,
  get_elem?,
}
use blog_os.Base.Words.{add_usize, add_usize-done}
use blog_os.Memory.Frames.{BootInfoFrameAllocator, frame_addresses, usable_frames, allocate_frame}
use blog_os.Memory.Paging.{Mmu, translate_addr}
pub mod Dma

-- The `x86_64` crate's addresses: whether `VirtAddr::new` and `PhysAddr::new` take a number, which
-- panic where they do not.
pub record Addresses : Type 0 where
  pub is_virtual : ℕ → Bool
  pub is_physical : ℕ → Bool

module _ (addresses : Addresses) where
  -- `NonNull::new(VirtAddr::new(paddr + PHYSICAL_MEMORY_OFFSET).as_mut_ptr()).unwrap()`
  unfoldable pub pointer_at : ℕ → ℕ → Exec ℕ
  pointer_at offset paddr = do
    vaddr ← add_usize paddr offset
    assert (addresses.is_virtual vaddr)
    assert (not (vaddr == 0))
    done vaddr

  -- `dma_alloc`: the physical and the virtual address. The frame allocator stands behind
  -- `FRAME_ALLOCATOR`, which is `None` before the kernel sets it; a frame is its start.
  unfoldable pub dma_alloc :
      (ℕ → Exec ℕ)
      → ℕ
      → ℕ
      → Option BootInfoFrameAllocator
      → Exec ((ℕ × ℕ) × Option BootInfoFrameAllocator)
  dma_alloc containing_address offset pages frame_allocator = do
    assert (leb pages 1)
    allocator ← expect frame_allocator
    (frame, allocator') ← allocate_frame containing_address allocator
    paddr ← expect frame
    vaddr ← pointer_at offset paddr
    done ((paddr, vaddr), some allocator')

  -- `dma_dealloc`: the frame leaks.
  unfoldable pub dma_dealloc :
      ℕ → ℕ → ℕ → Option BootInfoFrameAllocator → ℕ × Option BootInfoFrameAllocator
  dma_dealloc paddr vaddr pages frame_allocator = (0, frame_allocator)

  -- `mmio_phys_to_virt`
  unfoldable pub mmio_phys_to_virt : ℕ → ℕ → ℕ → Exec ℕ
  mmio_phys_to_virt offset paddr size = do
    assert (addresses.is_physical paddr)
    pointer_at offset paddr

-- `share`: the address of the buffer as the device sees it
unfoldable pub share : Mmu → ℕ → ℕ → Exec ℕ
share mmu physical_memory_offset buffer = do
  assert (mmu.is_virtual buffer)
  assert (mmu.is_virtual physical_memory_offset)
  phyaddr ← translate_addr mmu buffer physical_memory_offset
  expect phyaddr
