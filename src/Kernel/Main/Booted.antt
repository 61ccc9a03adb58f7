-- ===== src/Kernel/Main/Booted.antt =====
-- src/main.rs: the state in which `kernel_main` runs the executor.
use blog_os.Base.{
  ℕ, ◌+◌, ◌/◌, ◌^◌, ◌≤◌, ◌<◌, ◌≡◌, refl, ap, sym, ◌∙◌, [], ◌∷◌, ◌++◌, length, Option, Option-cases,
  none, some, some-injective, ok, err, done, inl, inr, true, arith,
}
use blog_os.Base.Maps.{lookup}
use blog_os.Base.Words.{add_usize-done}
use blog_os.Fs.Zerocopy.{Zerocopy}
use blog_os.Fs.BlockDev.{VirtioBlk, virtio_device}
use blog_os.Fs.SimpleFs.State.{Sfs}
use blog_os.Fs.SimpleFs.Files.{FileError}
use blog_os.Fs.SimpleFs.Reliable.{IsReliable, IsBlock}
use blog_os.Fs.SimpleFs.Root.{HasRoot}
use blog_os.Memory.Setup as Memory
use blog_os.Memory.Setup.{active_level_4_table}
use blog_os.Alloc.FixedSize as FixedSize
use blog_os.Alloc.FixedSize.{FallbackHeap, FixedSizeBlockAllocator}
use blog_os.Alloc.Start.{Paging, init_heap, heap_start, heap_size}
use blog_os.Alloc.Start.Pages.{init_heap_lem}
use blog_os.Virtio.Hal.{Addresses}
use blog_os.Virtio.Pci.{DeviceFunction, scan}
use blog_os.Interrupts.{DescriptorTable}
use blog_os.Interrupts.Gdt.{GlobalDescriptorTable}
use blog_os.Interrupts.Startup.{ChainedPics, IsSetUp, init-IsSetUp}
use blog_os.Tasks.Queues.{ArrayQueue}
use blog_os.Tasks.Futures.{Task, task_new, task_id_new}
use blog_os.Tasks.Executor as Executor
use blog_os.Tasks.Executor.{Executor, spawn}
use blog_os.Kernel.SelfTest.{use_disk_lem}
use blog_os.Kernel.Main.{
  BootInfo, Platform, DiskReport, Started, find_disk, spawn_tasks, kernel_main,
}

-- A disk of ten blocks or more.
pub record IsDisk {D E : Type 0} (blk : VirtioBlk D E) (rel : IsReliable (virtio_device blk))
    (d : D) : Type 0 where
  pub blocks : (id : ℕ) → IsBlock (rel.blocks d id)
  pub big : 10 ≤ blk.capacity d
  pub room : blk.capacity d < 2 ^ 64

-- The tasks of the two futures.
abbrev pub example_of : {M A D F : Type 0} → Platform M A D F → Task F
example_of platform = record { id = 0; future = platform.example_task }

abbrev pub reader_of : {M A D F : Type 0} → Platform M A D F → Task F
reader_of platform = record { id = 1; future = platform.print_keypresses }

module _ {M A D E F : Type 0} (blk : VirtioBlk D E) (platform : Platform M A D F) where
  spawn_tasks_lem :
      {Q : Type 0} ⦃numbers : ArrayQueue Q ℕ⦄
      → (e : Executor F Q) × (spawn_tasks blk platform ≡ done e)
        × (numbers.items e.task_queue ≡ 0 ∷ 1 ∷ [])
        × (lookup e.tasks 0 ≡ some (example_of platform))
        × (lookup e.tasks 1 ≡ some (reader_of platform))
  unfolding spawn_tasks spawn Executor.new task_new task_id_new
  spawn_tasks_lem ⦃numbers⦄ =
      let empty = numbers.items-new 100 in
      let cap = numbers.cap-new 100 in
      let (q₁, pushed₁, listed₁, cap₁) =
        numbers.push_room (numbers.new 100) 0 (omega (arith, ap (λ l. length l) empty, cap)) in
      let one : numbers.items q₁ ≡ 0 ∷ [] = listed₁ ∙ ap (λ l. l ++ (0 ∷ [])) empty in
      let (q₂, pushed₂, listed₂, cap₂) =
        numbers.push_room q₁ 1 (omega (arith, ap (λ l. length l) one, cap, cap₁)) in
      (
        record {
          tasks = (0, example_of platform) ∷ (1, reader_of platform) ∷ [];
          task_queue = q₂;
          waker_cache = [];
        },
        rw (spawn_tasks, pushed₁, pushed₂) refl,
        listed₂ ∙ ap (λ l. l ++ (1 ∷ [])) one,
        refl,
        refl,
      )

  -- What the disk gave, where there is one: the test passed, the file was created once, and the file
  -- system on the disk of the second driver has a root directory behind its inode table.
  abbrev pub Found :
      ⦃z : Zerocopy⦄ → IsReliable (virtio_device blk) → Option (DiskReport D) → Type 0
  Found rel report =
      (scan platform.enumerate_bus ≡ none → report ≡ none)
      × ((device_function : DeviceFunction)
          → scan platform.enumerate_bus ≡ some device_function
          → (d : D) × (s : Sfs D) × (platform.attach 1 device_function ≡ done d)
            × (report ≡ some (true, ok (record { index = 1 }), err FileError.corrupt, s))
            × HasRoot ⦃dev = virtio_device blk⦄ rel s (3 + blk.capacity d / 10))

  -- The driver of a device that is found is that of a disk, each time that it is made.
  abbrev pub Attaches : IsReliable (virtio_device blk) → Type 0
  Attaches rel =
      (device_function : DeviceFunction)
      → scan platform.enumerate_bus ≡ some device_function
      → (d : D) × (d' : D) × (platform.attach 0 device_function ≡ done d)
        × (platform.attach 1 device_function ≡ done d')
        × IsDisk blk rel d
        × IsDisk blk rel d'

  find_disk_lem :
      ⦃z : Zerocopy⦄ (rel : IsReliable (virtio_device blk))
      → Attaches rel
      → (report : Option (DiskReport D)) × (find_disk blk platform ≡ done report) × Found rel report
  unfolding find_disk
  find_disk_lem rel attaches = elim (Option-cases (scan platform.enumerate_bus)) [
    | inl e ↦
        (none, rw (find_disk, e) refl, (λ e'. refl, λ df e'. let bad = sym e ∙ e' in absurd cc))
    | inr (df, e) ↦
        let (d, d', first, second, disk, disk') = attaches df e in
        let (d₁, s, tested, unmounted, used, root) =
          use_disk_lem blk rel d d' (disk.blocks 0) (omega (arith, disk.big)) disk'.blocks disk'.big
            disk'.room in
        let report : Option (DiskReport D) =
          some (true, ok (record { index = 1 }), err FileError.corrupt, s) in
        (
          report,
          rw (find_disk, e, first, second, used) refl,
          (
            λ e'. let bad = sym e ∙ e' in absurd cc,
            λ df' e'.
                let same : df ≡ df' = some-injective _ _ (sym e ∙ e') in
                (d', s, ap (λ f. platform.attach 1 f) (sym same) ∙ second, refl, root),
          ),
        )
  ]

module _ {M A E D F : Type 0} (H : Type 0) ⦃heap : FallbackHeap H⦄ (paging : Paging M A E)
    (addresses : Addresses) (platform : Platform M A D F) where
  -- What `memory::init` and `init_heap` get: addresses that are virtual, and enough frames for the
  -- heap.
  pub record HasMemory (boot_info : BootInfo) : Type 0 where
    pub stack_room : platform.stack_start + 20480 < 2 ^ 64
    pub stack_virtual : addresses.is_virtual (platform.stack_start + 20480) ≡ true
    pub offset_virtual : addresses.is_virtual boot_info.physical_memory_offset ≡ true
    pub table_room : boot_info.physical_memory_offset + platform.level_4_table_frame < 2 ^ 64
    pub table_virtual :
        addresses.is_virtual (boot_info.physical_memory_offset + platform.level_4_table_frame)
        ≡ true
    pub mapper : M
    pub frames : A
    pub allocator : FixedSizeBlockAllocator H
    pub heap_ok :
        init_heap ⦃paging = paging⦄
          (platform.offset_page_table
            (boot_info.physical_memory_offset + platform.level_4_table_frame)
            boot_info.physical_memory_offset)
          (platform.frame_allocator boot_info.memory_map)
          FixedSize.new
        ≡ (ok tt, mapper, frames, allocator)

module _ {G S T P M A E H D BE F Q : Type 0} ⦃global : GlobalDescriptorTable G S⦄
    ⦃table : DescriptorTable T⦄ ⦃chained : ChainedPics P⦄ ⦃heap : FallbackHeap H⦄ ⦃z : Zerocopy⦄
    ⦃numbers : ArrayQueue Q ℕ⦄ (paging : Paging M A E) (addresses : Addresses)
    (blk : VirtioBlk D BE) (platform : Platform M A D F) where
  pub record IsBooted (rel : IsReliable (virtio_device blk)) (k : Started G S T P M A H D F Q)
      : Type 0 where
    pub cpu : IsSetUp platform.stack_start k.cpu
    pub heap_mapped :
        (addr : ℕ)
        → heap_start ≤ addr
        → addr < heap_start + heap_size
        → paging.is_mapped k.page_mapper (addr / 4096) ≡ true
    pub disk : Found blk platform rel k.disk
    pub queued : numbers.items k.executor.task_queue ≡ 0 ∷ 1 ∷ []
    pub example : lookup k.executor.tasks 0 ≡ some (example_of platform)
    pub reader : lookup k.executor.tasks 1 ≡ some (reader_of platform)

  -- Where init_heap succeeds, the end of the double fault's stack, the offset of the physical
  -- memory and the level 4 table behind it lie below 2^64 at virtual addresses, and a device that
  -- scan finds has drivers of a disk of 512-byte blocks that does not fail, with ten blocks or
  -- more and fewer than 2^64, kernel_main reaches the executor without a panic. By then the
  -- processor is set up, every page of the heap is mapped, a disk that was found passed its test
  -- and has a file system with a root directory behind its inode table, in which the first call
  -- made a file with the inode 1 and the second was refused with Corrupt, and the executor has its
  -- two tasks, both in its queue.
  pub kernel_main-IsBooted :
      (rel : IsReliable (virtio_device blk)) (boot_info : BootInfo)
      → HasMemory H paging addresses platform boot_info
      → Attaches blk platform rel
      → (k : Started G S T P M A H D F Q) × (kernel_main paging addresses blk platform boot_info
          ≡ done k)
        × IsBooted rel k
  unfolding kernel_main Memory.init active_level_4_table
  kernel_main-IsBooted rel boot_info m attaches =
      let (cpu, set_up, is_set_up) =
        init-IsSetUp addresses platform.stack_start m.stack_room m.stack_virtual in
      let (report, found, is_found) = find_disk_lem blk platform rel attaches in
      let (executor, spawned, queued, example, reader) = spawn_tasks_lem blk platform in
      let (mapped, kept) =
        init_heap_lem ⦃paging = paging⦄ _ _ _ m.mapper m.frames m.allocator m.heap_ok in
      (
        record {
          cpu = cpu;
          page_mapper = m.mapper;
          frame_allocator = m.frames;
          allocator = m.allocator;
          disk = report;
          executor = executor;
        },
        rw
            (
              kernel_main,
              set_up,
              m.offset_virtual,
              add_usize-done _ _ m.table_room,
              m.table_virtual,
              m.heap_ok,
              found,
              spawned,
            )
            refl,
        record {
          cpu = is_set_up;
          heap_mapped = mapped;
          disk = is_found;
          queued = queued;
          example = example;
          reader = reader;
        },
      )
