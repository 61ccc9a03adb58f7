-- ===== src/Lib.antt =====
-- The blog_os kernel: its boot, file system, heap allocators, tasks and screen.
--
-- The program. blog_os is a kernel for x86_64. On start it maps a heap (src/allocator.rs), which
-- one of three allocators under src/allocator/ hands out behind a lock, finds a virtio disk on the
-- PCI bus (src/virtio/), and formats or mounts a small file system on it (src/fs/), in which it
-- creates a file. Then an executor runs asynchronous tasks (src/task/), one of which reads the
-- scancodes that the keyboard's interrupt handler queues. Text goes to an 80 × 25 screen
-- (src/vga_buffer.rs) or to the serial port.
--
-- The files.
--   Fs/Layout and below: src/fs/layout.rs. An on-disk structure is a record of the bytes of its
--     fields; `from_…` and `…_try_from` are the source's `From` and `TryFrom`. `Bitmaps` has the
--     methods of `Bitmap` on a list of bytes and, in `Bitmaps/Abs`, what they promise on bits.
--     `Represent` has the structures against the bytes that they take.
--   Fs/Zerocopy: the words of the `zerocopy` crate, a parameter: how a number is stored in a
--     field, with the laws that the crate documents.
--   Fs/BlockDev: src/fs/block_dev.rs. The trait is a record of functions, the virtio driver a
--     parameter.
--   Fs/SimpleFs and below: src/fs/simple_fs.rs. `Sfs` is the struct `SFS`; a method with
--     `&mut self` is a function from `Sfs` to a result and the next `Sfs` (`State`), or to a panic.
--     `Volume`, `Inodes`, `Dirs` and `Files` have the methods. `Reliable` says what a device that
--     does not fail does; `Allocation`, `Table`, `Mounting`, `Entries` and `Scan` have the
--     theorems on single methods and on tables and directory blocks, `Root`, `Blank` and
--     `Initialize` those on the root directory, `Create`, `Fresh` and `Existing` those on
--     `create_file`, `AddEntry` that on `add_root_dir_entry`.
--   Kernel and below: src/main.rs and the test runner of src/lib.rs. `Kernel` has what
--     `kernel_main` does with the disk, `Kernel/Main` the whole of it, `SelfTest`, `FirstBoot` and
--     `Main/Booted` the theorems; `Backtrace` is the loop of the panic handler, with
--     the reads of memory, which may fault, as a parameter, `Harness` the test
--     runner. The driver that the kernel makes anew where the first does not mount is an argument.
--   Interrupts and below: src/interrupts.rs, src/gdt.rs (`Gdt`) and `init` of src/lib.rs (`Startup`).
--     The tables of the `x86_64` crate and the controllers of the `pic8259` crate are parameters.
--   Alloc and below: src/allocator.rs and src/allocator/. An address is a number and a null
--     pointer is 0. A list node of the linked lists stands in the free memory that it describes,
--     so a list of nodes is a list of blocks. `Trace` has the calls of any number of clients in
--     any order; they run under a lock, so a call is a step. `LinkedList/Unordered` has the free
--     regions without their order, as a quotient of lists by permutation. `FixedSize/Reuse` has the
--     loop of a test in tests/heap_allocation.rs.
--     `Alloc/Start` has `init_heap`, with the mapper and the frame allocator as parameters.
--   Tasks and below: src/task/. A future is a value with a `poll`, a parameter, which also says
--     which tasks' wakers it called; `Queues` is the crossbeam queue, a parameter with the laws of
--     a bounded queue, first in, first out. `SimpleExecutor` and `Executor` have the executors, and
--     below them what holds of every run. `Keyboard` has `add_scancode` and `ScancodeStream`;
--     `Keyboard/Interleaving` has the steps of a reader and the keyboard interrupts, in any order.
--     There is one processor, so a handler is one step. The once cell, the atomic waker and the
--     decoder of scancodes are parameters. `Wakeups` joins the stream and the executor.
--   Virtio and below: src/virtio/. `Pci` has pci.rs, with the ports and the enumeration of a bus as
--     parameters, `Hal` the `OsHal` of mod.rs. The offset of the physical memory is an argument.
--   Scanc: src/scanc.rs. Serial: src/serial.rs, with the UART driver as a parameter.
--   Vga and below: src/vga_buffer.rs. The screen is what stands at each row and column.
--   Memory and below: src/memory.rs, the frame allocator over the bootloader's memory map and the
--     walk of the page tables; the addresses and tables of the `x86_64` crate are parameters, with
--     the bits that it documents for the parts of an address. `Addresses` has the list of usable
--     addresses, `Setup` finds the active table.
--   Base: the names and lemmas that these share. Tests: examples.
--
-- The conventions. Numbers are natural numbers; `usize` and `u64` sums and differences are written
-- with their bounds, and panic where the kernel, built in the dev profile, panics. `Exec` is a
-- computation that may panic: an assertion, an overflow, an index out of bounds, `unwrap`.
--
-- Bounds and fuel. Most loops run over lists or over a count, so they end. The iteration of a
-- directory block is given nine rounds for its eight entries. The loops of the two executors run as
-- long as futures are pending or tasks are woken, so they are given a number of polls, and return
-- nothing where it does not suffice; the theorems on them say which numbers do. The loop of
-- `Executor::run` around `run_ready_tasks` never ends, and has no definition.
--
-- Not modelled. What the kernel and its handlers print, and the macros that print it; the order in
-- which `init` writes the processor's registers; the endless loops of `Executor::run` and `hlt_loop`;
-- the raw waker of the simple executor, whose functions do nothing; `Locked`, a spin lock around an
-- allocator; the integration tests under tests/, which run under the emulator, but for the loop of
-- one. The memory behind the pointers is not modelled: the allocators' own bookkeeping is what they
-- keep there.
pub mod Base
pub mod Fs
pub mod Alloc
pub mod Vga
pub mod Memory
pub mod Tasks
pub mod Virtio
pub mod Scanc
pub mod Serial
pub mod Kernel
pub mod Interrupts
mod Tests
