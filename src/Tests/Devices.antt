-- ===== src/Tests/Devices.antt =====
-- The theorems on the PCI bus, the scancodes and the start of the heap.
use blog_os.Base.{
  ℕ, ◌+◌, ◌/◌, ◌%◌, ◌^◌, ◌≤◌, ◌<◌, ◌≡◌, refl, ap, sym, ◌∙◌, arith, List, [], ◌∷◌, none, some,
  Result, ok, Bool, true, false, ◌==◌, ◌||◌, if◌then◌else◌, done,
}
use blog_os.Virtio.Pci.{DeviceFunction, Header, address, scan}
use blog_os.Virtio.Pci.Packets.{address_lem}
use blog_os.Alloc.FixedSize.{FallbackHeap, FixedSizeBlockAllocator, new}
use blog_os.Alloc.Start.{Paging, map_pages, init_heap, heap_start, heap_size}
use blog_os.Alloc.Start.Pages.{init_heap_lem}
use blog_os.Virtio.Pci.Scanning.{Scanned, scan-Scanned}

abbrev pub disk_address : DeviceFunction
disk_address = record { bus = 1; device = 4; function = 2 }

address_lem_example :
    (address disk_address 6 / 2 ^ 31 ≡ 1)
    × (address disk_address 6 / 2 ^ 16 % 256 ≡ 1)
    × (address disk_address 6 / 2 ^ 11 % 32 ≡ 4)
    × (address disk_address 6 / 2 ^ 8 % 8 ≡ 2)
    × (address disk_address 6 % 256 ≡ 4)
address_lem_example = address_lem disk_address 6 (record {
  bus = omega arith;
  device = omega arith;
  function = omega arith;
  offset = omega arith;
})

-- One virtio device, on bus 1, behind another.
abbrev pub buses : ℕ → List (DeviceFunction × Header)
buses n =
    if n == 1
    then (record disk_address { device = 3 }, record { vendor_id = 0x8086 })
      ∷ (disk_address, record { vendor_id = 0x1af4 })
      ∷ []
    else []

scan-Scanned_example : Scanned buses 0 256 (scan buses)
scan-Scanned_example = scan-Scanned buses

instance abbrev pub fallback : FallbackHeap ℕ
fallback = record {
  empty = 0;
  init = λ h start size. size;
  allocate_first_fit = λ h l. done (none, h);
  deallocate = λ h p l. done h;
}

-- A table of pages as a test, and frames in order.
instance abbrev pub table : Paging (ℕ → Bool) ℕ ℕ
table = record {
  frame_allocation_failed = 0;
  allocate_frame = λ a. (some a, a + 1);
  map_to = λ m page frame a. (ok tt, λ p. p == page || m p, a);
  is_mapped = λ m p. m p;
  map_to_lem = λ m page frame a m' a' e. (
    sym (ap (λ r. r.1 page) e) ∙ self_or page (m page),
    λ p old. sym (ap (λ r. r.1 p) e) ∙ or_old (p == page) (m p) old,
  );
}
  where
    self_or : (n : ℕ) (b : Bool) → ((n == n) || b) ≡ true
    self_or n b = ground arith

    or_old : (a b : Bool) → b ≡ true → (a || b) ≡ true
    or_old true b h = refl
    or_old false b h = h

abbrev pub after : Result ℕ (Unit {0}) × (ℕ → Bool) × ℕ × FixedSizeBlockAllocator ℕ
after = init_heap {E = ℕ} (λ p. false) 7 new

pub after_fine : init_heap {E = ℕ} (λ p. false) 7 new ≡ (ok tt, after.1, after.2, after.3)
unfolding init_heap map_pages
after_fine = refl

init_heap_lem_example :
    ((addr : ℕ) → heap_start ≤ addr → addr < heap_start + heap_size → after.1 (addr / 4096) ≡ true)
    × ((p : ℕ) → false ≡ true → after.1 p ≡ true)
init_heap_lem_example = init_heap_lem {E = ℕ} (λ p. false) 7 new after.1 after.2 after.3 after_fine
