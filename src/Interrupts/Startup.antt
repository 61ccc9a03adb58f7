-- ===== src/Interrupts/Startup.antt =====
-- src/lib.rs: `init`, and the state of the processor behind it.
use blog_os.Base.{
  ℕ, ◌+◌, ◌≤◌, ◌<◌, ◌^◌, ◌≡◌, refl, ap, sym, ◌∙◌, List, Option, none, some, Exec, done, ◌>>=◌, Bool,
  true, false, leb, ltb, ◌==◌, ◌&&◌, ◌||◌, if◌then◌else◌, get_or, arith, set, replicate,
}
use blog_os.Base.Words.{add_usize-done}
use blog_os.Virtio.Hal.{Addresses}
use blog_os.Interrupts.{Entry, DescriptorTable, idt, pic_1_offset, pic_2_offset}
use blog_os.Interrupts.Gdt as Gdt
use blog_os.Interrupts.Gdt.{
  Descriptor, kernel_code_segment, tss_segment, GlobalDescriptorTable, Segments, stack_size, tss,
  gdt,
}
use blog_os.Interrupts.Dispatch.{entries, idt_lem}

-- The `pic8259` crate's `ChainedPics`: two controllers, each of which handles eight vectors from its
-- offset on.
pub record ChainedPics (P : Type 0) : Type 0 where
  pub new : ℕ → ℕ → P
  pub initialize : P → P
  pub handles_interrupt : P → ℕ → Bool
  pub handles_lem :
      (a b v : ℕ)
      → handles_interrupt (initialize (new a b)) v
        ≡ ((leb a v && ltb v (a + 8)) || (leb b v && ltb v (b + 8)))

-- What `init` sets up: the segments, the interrupt descriptor table, the interrupt controllers, and
-- whether interrupts are enabled.
pub record Cpu (G S T P : Type 0) : Type 0 where
  pub segments : Segments G S
  pub interrupt_table : T
  pub pics : P
  pub interrupts_enabled : Bool

-- The stack of an index in a task state segment.
abbrev pub stack_for : Option ℕ → Option Descriptor → Option ℕ
stack_for none d = none
stack_for (some i) none = none
stack_for (some i) (some kernel_code_segment) = none
stack_for (some i) (some (tss_segment stacks)) = some (get_or stacks i 0)

module _ {G S T P : Type 0} ⦃global : GlobalDescriptorTable G S⦄ where
  -- The stack that the processor switches to for an entry of the table: none for an entry without a
  -- stack index, or that of the task state segment in the register.
  abbrev pub switches_to : Cpu G S T P → Entry → Option ℕ
  switches_to cpu e = stack_for e.stack_index (global.descriptor cpu.segments.table cpu.segments.tr)

module _ {G S T P : Type 0} ⦃global : GlobalDescriptorTable G S⦄ ⦃table : DescriptorTable T⦄
    ⦃chained : ChainedPics P⦄ where
  pub record IsSetUp (stack_start : ℕ) (cpu : Cpu G S T P) : Type 0 where
    pub code : global.descriptor cpu.segments.table cpu.segments.cs ≡ some kernel_code_segment
    pub stacks :
        (v : ℕ) (e : Entry)
        → table.entry cpu.interrupt_table v ≡ some e
        → switches_to cpu e ≡ (if v == 8 then some (stack_start + 20480) else none)
    pub handled :
        (v : ℕ) (e : Entry)
        → table.entry cpu.interrupt_table v ≡ some e
        → 32 ≤ v
        → chained.handles_interrupt cpu.pics v ≡ true
    pub enabled : cpu.interrupts_enabled ≡ true

entries_stack :
    (v : ℕ) (e : Entry) → entries v ≡ some e → e.stack_index ≡ (if v == 8 then some 0 else none)
entries_stack v e h = ground arith

on_its_stack :
    (b : Bool) (stack_start : ℕ)
    → stack_for
        (if b then some 0 else none)
        (some (tss_segment (set (replicate 7 0) 0 (stack_start + 20480))))
      ≡ (if b then some (stack_start + 20480) else none)
on_its_stack true stack_start = refl
on_its_stack false stack_start = refl

entries_external : (v : ℕ) (e : Entry) → entries v ≡ some e → 32 ≤ v → v < 34
entries_external v e h external = ground arith

module _ {G S T P : Type 0} ⦃global : GlobalDescriptorTable G S⦄ ⦃table : DescriptorTable T⦄
    ⦃chained : ChainedPics P⦄ (addresses : Addresses) where
  -- `init` of src/lib.rs; `STACK` of src/gdt.rs begins at `stack_start`.
  unfoldable pub init : ℕ → Exec (Cpu G S T P)
  init stack_start = do
    segments ← Gdt.init addresses stack_start
    interrupt_table ← idt
    done (record {
      segments = segments;
      interrupt_table = interrupt_table;
      pics = chained.initialize (chained.new pic_1_offset pic_2_offset);
      interrupts_enabled = true;
    })

  -- Where the double fault's stack ends below 2 ^ 64 at a virtual address, `init` does not panic.
  -- Behind it the code segment is the kernel's, the processor switches to the top of that stack of
  -- five pages for a double fault and to no other stack for the other vectors of the table, the
  -- controllers handle the table's vectors from 32 on, and interrupts are enabled.
  pub init-IsSetUp :
      (stack_start : ℕ)
      → stack_start + 20480 < 2 ^ 64
      → addresses.is_virtual (stack_start + 20480) ≡ true
      → (cpu : Cpu G S T P) × (init stack_start ≡ done cpu) × IsSetUp stack_start cpu
  unfolding init Gdt.init gdt tss
  init-IsSetUp stack_start room canonical =
      let stacks : List ℕ = set (replicate 7 0) 0 (stack_start + 20480) in
      let (c, g, t, g', first, second, code, segment) =
        global.both kernel_code_segment (tss_segment stacks) in
      let (interrupt_table, loaded, all) = idt_lem {T = T} in
      let known : (v : ℕ) (e : Entry)
          → table.entry interrupt_table v ≡ some e
          → entries v ≡ some e =
        λ v e h. sym (all v) ∙ h in
      (
        record {
          segments = record { table = g'; cs = c; tr = t };
          interrupt_table = interrupt_table;
          pics = chained.initialize (chained.new 32 40);
          interrupts_enabled = true;
        },
        rw (init, first, add_usize-done stack_start 20480 room, canonical, second, loaded) refl,
        record {
          code = code;
          stacks = λ v e h.
              ap (λ i. stack_for i (global.descriptor g' t)) (entries_stack v e (known v e h))
              ∙ ap (λ d. stack_for (if v == 8 then some 0 else none) d) segment
              ∙ on_its_stack (v == 8) stack_start;
          handled = λ v e h external.
              let low = entries_external v e (known v e h) external in
              chained.handles_lem 32 40 v ∙ ground (arith, low);
          enabled = refl;
        },
      )
