-- ===== src/Tests/Interrupts.antt =====
-- The theorems on the descriptor tables, the handlers, the panic handler and the test runner.
use blog_os.Base.{
  ℕ, ◌+◌, ◌^◌, ◌≡◌, refl, arith, List, [], ◌∷◌, ◌++◌, length, get_elem?, Option, none, some, done,
  panic, Exec, inr, ltb, leb, ◌==◌, ◌&&◌, ◌||◌, if◌then◌else◌,
}
use blog_os.Tests.Queues.{list_queue}
use blog_os.Tests.Keyboards.{flag, last_waker, asleep}
use blog_os.Virtio.Hal.{Addresses}
use blog_os.Interrupts.{keyboard_interrupt_handler, Entry, DescriptorTable, handle}
use blog_os.Interrupts.Dispatch.{Serves, idt_lem, idt-Serves}
use blog_os.Interrupts.Gdt.{Descriptor, GlobalDescriptorTable}
use blog_os.Interrupts.Startup.{ChainedPics, Cpu, init, IsSetUp, init-IsSetUp}
use blog_os.Kernel.Backtrace.{backtrace, Calls, backtrace_lem}
use blog_os.Kernel.Harness.{Testable, exit_status, oks, test_runner, test_runner_lem}

abbrev pub Table : Type 0
Table = ℕ → Option Entry

abbrev pub stacked : ℕ → Option Entry → Option Entry
stacked i none = none
stacked i (some e) = some (record e { stack_index = some i })

instance abbrev pub entry_table : DescriptorTable Table
entry_table = record {
  new = λ u. none;
  index = λ i. if leb 32 i && ltb i 256 then done i else panic;
  set_handler_fn =
      λ t v h u. if u == v then some (record { handler = h; stack_index = none }) else t u;
  set_stack_index = λ t v i u. if u == v then stacked i (t v) else t u;
  entry = λ t u. t u;
  entry-new = λ u. refl;
  index_external = λ i low high. ground arith;
  entry-set_handler_fn = λ t v u h. refl;
  entry-set_stack_index = λ t v u i e there. rw there refl;
}

idt-Serves_example :
    Serves 33 30 asleep.statics (handle keyboard_interrupt_handler 30 asleep.statics)
idt-Serves_example =
    idt-Serves (idt_lem {T = Table}).0 33 30 asleep.statics
      (record { handler = keyboard_interrupt_handler; stack_index = none }) (idt_lem {T = Table}).1
      ((idt_lem {T = Table}).2 33)

instance abbrev pub descriptors : GlobalDescriptorTable (List Descriptor) ℕ
descriptors = record {
  new = [];
  add_entry = λ g d. done (length g, g ++ (d ∷ []));
  descriptor = λ g s. get_elem? g s;
  both = λ code segment. (0, code ∷ [], 1, code ∷ segment ∷ [], refl, refl, refl, refl);
}

instance abbrev pub two_controllers : ChainedPics (ℕ × ℕ)
two_controllers = record {
  new = λ a b. (a, b);
  initialize = λ p. p;
  handles_interrupt = λ p v. (leb p.0 v && ltb v (p.0 + 8)) || (leb p.1 v && ltb v (p.1 + 8));
  handles_lem = λ a b v. refl;
}

abbrev pub addresses : Addresses
addresses = record { is_virtual = λ a. ltb a (2 ^ 47); is_physical = λ a. ltb a (2 ^ 52) }

init-IsSetUp_example :
    (cpu : Cpu (List Descriptor) ℕ Table (ℕ × ℕ)) × (init addresses 65536 ≡ done cpu)
    × IsSetUp 65536 cpu
init-IsSetUp_example = init-IsSetUp addresses 65536 (omega arith) refl

-- Two frames, at 96 and 200, and nothing else can be read.
abbrev stack : ℕ → Exec ℕ
stack a =
    if a == 96
    then done 200
    else if a == 104
    then done 4096
    else if a == 200
    then done 0
    else if a == 208
    then done 8192
    else panic

backtrace_lem_example : backtrace stack 96 ≡ done (4096 ∷ 8192 ∷ [])
backtrace_lem_example =
    backtrace_lem stack
      (Calls.frame (λ e. absurd (omega (arith, e))) (omega arith) refl refl
        (Calls.frame (λ e. absurd (omega (arith, e))) (omega arith) refl refl Calls.here))
      (inr refl)

-- The second of three tests panics.
abbrev suite : List Testable
suite =
    record { type_name = b'a' ∷ []; call = done tt }
    ∷ record { type_name = b'b' ∷ []; call = panic }
    ∷ record { type_name = b'c' ∷ []; call = done tt }
    ∷ []

test_runner_lem_example :
    (exit_status (test_runner suite) ≡ some 35) × (oks (test_runner suite) ≡ 1)
test_runner_lem_example = test_runner_lem suite
