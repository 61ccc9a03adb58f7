-- ===== src/Tests/Kernels.antt =====
-- The theorems of src/main.rs on a disk in memory.
use blog_os.Base.{
  ℕ, List, [], Bool, false, ◌^◌, ◌+◌, ◌/◌, ◌≡◌, refl, arith, ok, err, done, true, ltb, ◌==◌,
  if◌then◌else◌,
}
use blog_os.Tests.Fixtures.{RamDisk, blank_disk, little_endian}
use blog_os.Fs.BlockDev.{VirtioBlk, virtio_device, invalid_super_block}
use blog_os.Fs.SimpleFs.State.{Sfs}
use blog_os.Fs.SimpleFs.Volume.{mount}
use blog_os.Fs.SimpleFs.Files.{FileError}
use blog_os.Fs.SimpleFs.Reliable.{IsReliable, zero_block-IsBlock}
use blog_os.Fs.SimpleFs.Root.{HasRoot}
use blog_os.Tests.Devices.{fallback, table, after, after_fine, buses}
use blog_os.Tests.Interrupts.{Table, entry_table, descriptors, two_controllers, addresses}
use blog_os.Tests.Queues.{ListQueue, list_queue}
use blog_os.Interrupts.Gdt.{Descriptor}
use blog_os.Kernel.Main.{BootInfo, Platform, Started, kernel_main}
use blog_os.Kernel.Main.Booted.{IsDisk, HasMemory, IsBooted, kernel_main-IsBooted}
use blog_os.Kernel.{self_test, use_disk}
use blog_os.Kernel.SelfTest.{use_disk_lem}

-- A driver of the disk in memory.
abbrev ram_blk : VirtioBlk RamDisk (Unit {0})
ram_blk = record {
  read_blocks =
      λ d id buffer. if ltb id d.size then (ok tt, d.block_at id, d) else (err tt, buffer, d);
  write_blocks = λ d id buffer.
      if ltb id d.size
      then (ok tt, record d { block_at = λ k. if k == id then buffer else d.block_at k })
      else (err tt, d);
  capacity = λ d. d.size;
}

abbrev blk_reliable : IsReliable (virtio_device ram_blk)
unfolding virtio_device
blk_reliable = record {
  blocks = λ d. d.block_at;
  read_lem = λ d id buffer len lt. (d, ground arith, (λ k. refl), refl);
  write_lem = λ d id buffer len lt. (
    record d { block_at = λ k. if k == id then buffer else d.block_at k },
    ground arith,
    ground arith,
    (λ k ne. ground arith),
    refl,
  );
}

use_disk_lem_example :
    (d₁ : RamDisk) × (s' : Sfs RamDisk) × (self_test ram_blk blank_disk ≡ done (true, d₁))
    × (mount ⦃dev = virtio_device ram_blk⦄ d₁ ≡ done (err invalid_super_block))
    × (use_disk ram_blk blank_disk (done blank_disk)
        ≡ done (true, ok (record { index = 1 }), err FileError.corrupt, s'))
    × HasRoot ⦃dev = virtio_device ram_blk⦄ blk_reliable s' (3 + 40 / 10)
unfolding virtio_device
use_disk_lem_example =
    use_disk_lem ram_blk blk_reliable blank_disk blank_disk zero_block-IsBlock (omega arith)
      (λ id. zero_block-IsBlock) (omega arith) (omega arith)

-- One virtio device, on bus 1, whose driver is that of the disk in memory both times.
abbrev platform : Platform (ℕ → Bool) ℕ RamDisk ℕ
platform = record {
  stack_start = 65536;
  level_4_table_frame = 4096;
  offset_page_table = λ level_4_table offset page. false;
  frame_allocator = λ memory_map. 7;
  enumerate_bus = buses;
  attach = λ n device_function. done blank_disk;
  example_task = 3;
  print_keypresses = 4;
}

abbrev boot_info : BootInfo
boot_info = record { physical_memory_offset = 2 ^ 40; memory_map = [] }

memory : HasMemory ℕ table addresses platform boot_info
memory = record {
  stack_room = omega arith;
  stack_virtual = refl;
  offset_virtual = refl;
  table_room = omega arith;
  table_virtual = refl;
  mapper = after.1;
  frames = after.2;
  allocator = after.3;
  heap_ok = after_fine;
}

blank-IsDisk : IsDisk ram_blk blk_reliable blank_disk
unfolding virtio_device
blank-IsDisk = record { blocks = λ id. zero_block-IsBlock; big = omega arith; room = omega arith }

kernel_main-IsBooted_example :
    (k : Started (List Descriptor) ℕ Table (ℕ × ℕ) (ℕ → Bool) ℕ ℕ RamDisk ℕ ListQueue)
    × (kernel_main table addresses ram_blk platform boot_info ≡ done k)
    × IsBooted table addresses ram_blk platform blk_reliable k
kernel_main-IsBooted_example =
    kernel_main-IsBooted table addresses ram_blk platform blk_reliable boot_info memory
      (λ device_function found. (blank_disk, blank_disk, refl, refl, blank-IsDisk, blank-IsDisk))
