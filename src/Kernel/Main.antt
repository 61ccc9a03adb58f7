-- ===== src/Kernel/Main.antt =====
-- src/main.rs: `kernel_main`, up to the executor's endless loop. What it prints is left out.
use blog_os.Base.{
  ℕ, ◌+◌, ◌/◌, ◌^◌, ◌≤◌, ◌<◌, ◌≡◌, refl, ap, sym, ◌∙◌, List, [], ◌∷◌, Option, none, some, Result,
  ok, err, Exec, done, ◌>>=◌, ◌>>◌, assert, expect_ok, Bool, true, false, arith,
}
use blog_os.Base.Maps.{lookup}
use blog_os.Fs.Zerocopy.{Zerocopy}
use blog_os.Fs.BlockDev.{VirtioBlk, virtio_device}
use blog_os.Fs.SimpleFs.State.{Sfs}
use blog_os.Fs.SimpleFs.Files.{FileError, FileHandler}
use blog_os.Memory.Frames.{Region}
use blog_os.Memory.Setup as Memory
use blog_os.Alloc.FixedSize as FixedSize
use blog_os.Alloc.FixedSize.{FallbackHeap, FixedSizeBlockAllocator}
use blog_os.Alloc.Start.{Paging, init_heap, heap_start, heap_size}
use blog_os.Virtio.Hal.{Addresses}
use blog_os.Virtio.Pci.{DeviceFunction, Header, scan}
use blog_os.Interrupts.{DescriptorTable}
use blog_os.Interrupts.Gdt.{GlobalDescriptorTable}
use blog_os.Interrupts.Startup.{ChainedPics, Cpu, init}
use blog_os.Tasks.Queues.{ArrayQueue}
use blog_os.Tasks.Futures.{task_new}
use blog_os.Tasks.Executor as Executor
use blog_os.Tasks.Executor.{Executor, spawn}
use blog_os.Kernel.{use_disk}
pub mod Booted

pub record BootInfo : Type 0 where
  pub physical_memory_offset : ℕ
  pub memory_map : List Region

-- What `kernel_main` finds and calls outside of the repository: where `STACK` begins, the register
-- CR3, `OffsetPageTable::new`, the frame allocator of a memory map, the devices on each bus, the
-- driver that the n-th call of `PciTransport::new` and `VirtIOBlk::new` gives for a device, and its
-- two futures.
pub record Platform (M A D F : Type 0) : Type 0 where
  pub stack_start : ℕ
  pub level_4_table_frame : ℕ
  pub offset_page_table : ℕ → ℕ → M
  pub frame_allocator : List Region → A
  pub enumerate_bus : ℕ → List (DeviceFunction × Header)
  pub attach : ℕ → DeviceFunction → Exec D
  pub example_task : F
  pub print_keypresses : F

-- What the test of the disk and the two calls of `create_file` gave, and the file system.
abbrev pub DiskReport : Type 0 → Type 0
DiskReport D = Bool × Result FileError FileHandler × Result FileError FileHandler × Sfs D

-- The kernel where it calls `executor.run()`.
pub record Started (G S T P M A H D F Q : Type 0) : Type 0 where
  pub cpu : Cpu G S T P
  pub page_mapper : M
  pub frame_allocator : A
  pub allocator : FixedSizeBlockAllocator H
  pub disk : Option (DiskReport D)
  pub executor : Executor F Q

module _ {M A D E F : Type 0} (blk : VirtioBlk D E) (platform : Platform M A D F) where
  -- `if let Some(device_function) = pci::scan(&mut pci_root) { .. }`
  unfoldable pub find_disk : ⦃z : Zerocopy⦄ → Exec (Option (DiskReport D))
  find_disk = elim (scan platform.enumerate_bus) [
    | none ↦ done none
    | some device_function ↦ do
      blk_dev ← platform.attach 0 device_function
      report ← use_disk blk blk_dev (platform.attach 1 device_function)
      done (some report)
  ]

  -- The executor with its two tasks; the task numbers begin at 0.
  unfoldable pub spawn_tasks : {Q : Type 0} → ⦃numbers : ArrayQueue Q ℕ⦄ → Exec (Executor F Q)
  spawn_tasks =
      let (example, next_id) = task_new platform.example_task 0 in
      let (keyboard, next_id') = task_new platform.print_keypresses next_id in
      spawn Executor.new example >>= λ executor. spawn executor keyboard

module _ {G S T P M A E H D BE F Q : Type 0} ⦃global : GlobalDescriptorTable G S⦄
    ⦃table : DescriptorTable T⦄ ⦃chained : ChainedPics P⦄ ⦃heap : FallbackHeap H⦄ ⦃z : Zerocopy⦄
    ⦃numbers : ArrayQueue Q ℕ⦄ (paging : Paging M A E) (addresses : Addresses)
    (blk : VirtioBlk D BE) (platform : Platform M A D F) where
  unfoldable pub kernel_main : BootInfo → Exec (Started G S T P M A H D F Q)
  kernel_main boot_info = do
    cpu ← init addresses platform.stack_start
    assert (addresses.is_virtual boot_info.physical_memory_offset)
    mapper ←
        Memory.init addresses platform.offset_page_table platform.level_4_table_frame
          boot_info.physical_memory_offset
    let (result, mapper', frames, allocator) =
        init_heap ⦃paging = paging⦄ mapper (platform.frame_allocator boot_info.memory_map)
          FixedSize.new
    expect_ok result
    disk ← find_disk blk platform
    executor ← spawn_tasks blk platform
    done (record {
      cpu = cpu;
      page_mapper = mapper';
      frame_allocator = frames;
      allocator = allocator;
      disk = disk;
      executor = executor;
    })
