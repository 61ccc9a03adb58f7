-- ===== src/Interrupts/Gdt.antt =====
-- src/gdt.rs: the task state segment, the global descriptor table, and `init`.
use blog_os.Base.{ℕ, ◌*◌, ◌≡◌, List, Option, some, Exec, done, ◌>>=◌, ◌>>◌, assert, set, replicate}
use blog_os.Base.Words.{add_usize}
use blog_os.Virtio.Hal.{Addresses}
use blog_os.Interrupts.{double_fault_ist_index}

-- `STACK_SIZE`: five pages
abbrev pub stack_size : ℕ
stack_size = 4096 * 5

-- The interrupt stack table of `TSS`, where `STACK` begins at `stack_start`: a
-- `TaskStateSegment` has seven stacks, which are 0 at first. `VirtAddr` checks its sum; the pointer
-- to a static, from which it is made, is a virtual address.
unfoldable pub tss : Addresses → ℕ → Exec (List ℕ)
tss addresses stack_start = do
  stack_end ← add_usize stack_start stack_size
  assert (addresses.is_virtual stack_end)
  done (set (replicate 7 0) double_fault_ist_index stack_end)

-- `Descriptor::kernel_code_segment()` and `Descriptor::tss_segment(..)`
pub data Descriptor : Type 0 where
  kernel_code_segment : Descriptor
  tss_segment : List ℕ → Descriptor

-- The `x86_64` crate's `GlobalDescriptorTable` and `SegmentSelector`: `add_entry` gives a new
-- selector, and panics where the table is full. `room` is the number of free entries, of which a
-- code segment takes one and a task state segment two.
pub record GlobalDescriptorTable (G S : Type 0) : Type 0 where
  pub new : G
  pub add_entry : G → Descriptor → Exec (S × G)
  pub descriptor : G → S → Option Descriptor
  pub both :
      (code segment : Descriptor)
      → (c : S) × (g : G) × (t : S) × (g' : G) × (add_entry new code ≡ done (c, g))
        × (add_entry g segment ≡ done (t, g'))
        × (descriptor g' c ≡ some code)
        × (descriptor g' t ≡ some segment)

pub record Selectors (S : Type 0) : Type 0 where
  pub code_selector : S
  pub tss_selector : S

-- The registers that `init` loads.
pub record Segments (G S : Type 0) : Type 0 where
  pub table : G
  pub cs : S
  pub tr : S

module _ {G S : Type 0} ⦃global : GlobalDescriptorTable G S⦄ (addresses : Addresses) where
  -- The value of `GDT`
  unfoldable pub gdt : ℕ → Exec (G × Selectors S)
  gdt stack_start = do
    (code_selector, g₁) ← global.add_entry global.new kernel_code_segment
    stacks ← tss addresses stack_start
    (tss_selector, g₂) ← global.add_entry g₁ (tss_segment stacks)
    done (g₂, record { code_selector = code_selector; tss_selector = tss_selector })

  -- `gdt::init`
  unfoldable pub init : ℕ → Exec (Segments G S)
  init stack_start = do
    (g, selectors) ← gdt stack_start
    done (record { table = g; cs = selectors.code_selector; tr = selectors.tss_selector })
