-- ===== src/Interrupts.antt =====
-- src/interrupts.rs: the handlers and the table that the processor finds them in. The processor runs
-- a handler with interrupts disabled, so a handler is one step. What handlers print is left out.
use blog_os.Base.{
  ℕ, suc, ◌+◌, ◌≤◌, ◌<◌, ◌≡◌, List, [], ◌∷◌, Option, none, some, Exec, done, ◌>>=◌, ◌==◌,
  if◌then◌else◌,
}
use blog_os.Tasks.Queues.{ArrayQueue}
use blog_os.Tasks.Keyboard.{OnceCell, AtomicWaker, Statics, Added, add_scancode}
pub mod Gdt
pub mod Dispatch
pub mod Startup

abbrev pub pic_1_offset : ℕ
pic_1_offset = 32

abbrev pub pic_2_offset : ℕ
pic_2_offset = pic_1_offset + 8

pub data InterruptIndex : Type 0 where
  timer keyboard : InterruptIndex

-- `InterruptIndex::as_u8` and `as_usize`: the discriminants
abbrev pub as_u8 : InterruptIndex → ℕ
as_u8 timer = pic_1_offset
as_u8 keyboard = pic_1_offset + 1

abbrev pub as_usize : InterruptIndex → ℕ
as_usize index = as_u8 index

pub data Handler : Type 0 where
  breakpoint_handler double_fault_handler page_fault_handler : Handler
  timer_interrupt_handler keyboard_interrupt_handler : Handler

-- An entry of the table: the handler, and which stack of the interrupt stack table it runs on.
pub record Entry : Type 0 where
  pub handler : Handler
  pub stack_index : Option ℕ

-- The `x86_64` crate's `InterruptDescriptorTable`. Its fields `breakpoint`, `double_fault` and
-- `page_fault` are the entries 3, 8 and 14; `index` is the entry of `idt[i]`, which panics for the
-- processor's own vectors and behind the end.
pub record DescriptorTable (T : Type 0) : Type 0 where
  pub new : T
  pub index : ℕ → Exec ℕ
  pub set_handler_fn : T → ℕ → Handler → T
  pub set_stack_index : T → ℕ → ℕ → T
  pub entry : T → ℕ → Option Entry
  pub entry-new : (v : ℕ) → entry new v ≡ none
  pub index_external : (i : ℕ) → 32 ≤ i → i < 256 → index i ≡ done i
  pub entry-set_handler_fn :
      (t : T) (v u : ℕ) (h : Handler)
      → entry (set_handler_fn t v h) u
        ≡ (if u == v then some (record { handler = h; stack_index = none }) else entry t u)
  pub entry-set_stack_index :
      (t : T) (v u i : ℕ) (e : Entry)
      → entry t v ≡ some e
      → entry (set_stack_index t v i) u
        ≡ (if u == v then some (record e { stack_index = some i }) else entry t u)

-- `DOUBLE_FAULT_IST_INDEX` of src/gdt.rs
abbrev pub double_fault_ist_index : ℕ
double_fault_ist_index = 0

module _ {T : Type 0} ⦃table : DescriptorTable T⦄ where
  -- `idt.double_fault.set_handler_fn(double_fault_handler).set_stack_index(..)`, behind the
  -- breakpoint
  unfoldable pub exceptions : T
  exceptions =
      table.set_stack_index
        (table.set_handler_fn (table.set_handler_fn table.new 3 breakpoint_handler) 8
          double_fault_handler)
        8 double_fault_ist_index

  -- The value of `IDT`
  unfoldable pub idt : Exec T
  idt = do
    timer_entry ← table.index (as_usize timer)
    keyboard_entry ← table.index (as_usize keyboard)
    done (
        table.set_handler_fn
          (table.set_handler_fn
            (table.set_handler_fn exceptions timer_entry timer_interrupt_handler) keyboard_entry
            keyboard_interrupt_handler)
          14 page_fault_handler)

-- What a handler leaves: it returns, with the vectors of its calls of `notify_end_of_interrupt`, or
-- it loops for ever. `called` is what `add_scancode` did.
pub data Outcome (S : Type 0) : Type 0 where
  returns : (ended : List ℕ) → (called : Option Added) → S → Outcome S
  halts : S → Outcome S

module _ {C Q A : Type 0} ⦃once : OnceCell C⦄ ⦃queue : ArrayQueue Q ℕ⦄
    ⦃atomic : AtomicWaker A⦄ where
  -- `timer_interrupt_handler`
  unfoldable pub on_timer : Statics C Q A → Outcome (Statics C Q A)
  on_timer s = returns (as_u8 timer ∷ []) none s

  -- `keyboard_interrupt_handler`; `scancode` is what the port 0x60 holds.
  unfoldable pub on_keyboard : ℕ → Statics C Q A → Outcome (Statics C Q A)
  on_keyboard scancode s =
      let (added, s') = add_scancode scancode s in returns (as_u8 keyboard ∷ []) (some added) s'

  -- `breakpoint_handler`, which only prints; `double_fault_handler` and `page_fault_handler`, which
  -- print and end in a loop
  abbrev pub on_breakpoint : Statics C Q A → Outcome (Statics C Q A)
  on_breakpoint s = returns [] none s

  abbrev pub on_double_fault : Statics C Q A → Outcome (Statics C Q A)
  on_double_fault s = halts s

  abbrev pub on_page_fault : Statics C Q A → Outcome (Statics C Q A)
  on_page_fault s = halts s

  -- A call of a handler
  unfoldable pub handle : Handler → ℕ → Statics C Q A → Outcome (Statics C Q A)
  handle breakpoint_handler scancode s = on_breakpoint s
  handle double_fault_handler scancode s = on_double_fault s
  handle page_fault_handler scancode s = on_page_fault s
  handle timer_interrupt_handler scancode s = on_timer s
  handle keyboard_interrupt_handler scancode s = on_keyboard scancode s
