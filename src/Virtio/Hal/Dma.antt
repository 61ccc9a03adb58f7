-- ===== src/Virtio/Hal/Dma.antt =====
-- src/virtio/mod.rs: what `dma_alloc` hands out.
use blog_os.Base.{ℕ, ◌+◌, ◌^◌, ◌<◌, ◌≡◌, ◌≢◌, refl, some, Exec, done, ◌==◌, true, false, arith}
use blog_os.Base.Words.{add_usize-done}
use blog_os.Memory.Frames.{BootInfoFrameAllocator, nth, usable_frames}
use blog_os.Memory.Usable.{allocate_frame_lem}
use blog_os.Virtio.Hal.{Addresses, pointer_at, dma_alloc, mmio_phys_to_virt}

module _ (addresses : Addresses) (offset p : ℕ) (no_overflow : p + offset < 2 ^ 64)
    (canonical : addresses.is_virtual (p + offset) ≡ true) (not_null : p + offset ≢ 0) where
  pointer_at_lem : pointer_at addresses offset p ≡ done (p + offset)
  unfolding pointer_at
  pointer_at_lem =
      let nonzero : (p + offset == 0) ≡ false = ground (arith, not_null) in
      rw (pointer_at, add_usize-done p offset no_overflow, canonical, nonzero) refl

  -- For one page, `dma_alloc` hands out the next usable frame, at the virtual address that is its
  -- physical address behind the offset, where that is an address other than 0, and counts it. The
  -- virtual address is that of `mmio_phys_to_virt` for the frame, if it is a physical address.
  pub dma_alloc_lem :
      (containing_address : ℕ → Exec ℕ) (self : BootInfoFrameAllocator)
      → self.next + 1 < 2 ^ 64
      → nth (usable_frames containing_address self) self.next ≡ done (some p)
      → (dma_alloc addresses containing_address offset 1 (some self)
          ≡ done ((p, p + offset), some (record self { next = self.next + 1 })))
        × ((size : ℕ)
            → addresses.is_physical p ≡ true
            → mmio_phys_to_virt addresses offset p size ≡ done (p + offset))
  unfolding dma_alloc mmio_phys_to_virt
  dma_alloc_lem containing_address self room frame = (
    rw (dma_alloc, allocate_frame_lem containing_address self (some p) room frame, pointer_at_lem)
        refl,
    λ size physical. rw (mmio_phys_to_virt, physical, pointer_at_lem) refl,
  )
