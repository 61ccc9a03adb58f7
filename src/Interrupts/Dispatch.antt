-- ===== src/Interrupts/Dispatch.antt =====
-- src/interrupts.rs: which vectors have a handler, and what it does.
use blog_os.Base.{
  ℕ, ◌≡◌, refl, ap, sym, ◌∙◌, List, [], ◌∷◌, Option, none, some, done, done-injective, subst, ◌==◌,
  if◌then◌else◌, Bool, true, false, not, ◌||◌, leb, arith,
}
use blog_os.Tasks.Queues.{ArrayQueue}
use blog_os.Tasks.Keyboard.{OnceCell, AtomicWaker, Statics, add_scancode}
use blog_os.Interrupts.{
  Handler, breakpoint_handler, double_fault_handler, page_fault_handler, timer_interrupt_handler,
  keyboard_interrupt_handler, Entry, DescriptorTable, exceptions, idt, Outcome, returns, halts,
  on_timer, on_keyboard, handle,
}

-- The table as a function of the vector.
abbrev pub entries : ℕ → Option Entry
entries v =
    if v == 14
    then some (record { handler = page_fault_handler; stack_index = none })
    else if v == 33
    then some (record { handler = keyboard_interrupt_handler; stack_index = none })
    else if v == 32
    then some (record { handler = timer_interrupt_handler; stack_index = none })
    else if v == 8
    then some (record { handler = double_fault_handler; stack_index = some 0 })
    else if v == 3
    then some (record { handler = breakpoint_handler; stack_index = none })
    else none

exceptions_lem :
    (T : Type 0) ⦃table : DescriptorTable T⦄ (u : ℕ)
    → table.entry exceptions u ≡ (
        if u == 8
        then some (record { handler = double_fault_handler; stack_index = some 0 })
        else if u == 3
        then some (record { handler = breakpoint_handler; stack_index = none })
        else none)
unfolding exceptions
exceptions_lem T ⦃table⦄ u =
    let first : T = table.set_handler_fn table.new 3 breakpoint_handler in
    let both : T = table.set_handler_fn first 8 double_fault_handler in
    let stacked =
      table.entry-set_stack_index both 8 u 0 _
        (table.entry-set_handler_fn first 8 8 double_fault_handler) in
    ground (
      arith,
      stacked,
      table.entry-set_handler_fn first 8 u double_fault_handler,
      table.entry-set_handler_fn table.new 3 u breakpoint_handler,
      table.entry-new u,
    )

-- The table has a handler for the vectors 3, 8, 14, 32 and 33 only, and only that of 8 has a stack
-- of its own.
pub idt_lem :
    {T : Type 0} ⦃table : DescriptorTable T⦄
    → (t : T) × (idt ≡ done t) × ((v : ℕ) → table.entry t v ≡ entries v)
unfolding idt
idt_lem {T} ⦃table⦄ =
    let t₁ : T = table.set_handler_fn exceptions 32 timer_interrupt_handler in
    let t₂ : T = table.set_handler_fn t₁ 33 keyboard_interrupt_handler in
    let t₃ : T = table.set_handler_fn t₂ 14 page_fault_handler in
    (
      t₃,
      rw
          (
            idt,
            table.index_external 32 (omega arith) (omega arith),
            table.index_external 33 (omega arith) (omega arith),
          )
          refl,
      λ v. ground (
        arith,
        table.entry-set_handler_fn t₂ 14 v page_fault_handler,
        table.entry-set_handler_fn t₁ 33 v keyboard_interrupt_handler,
        table.entry-set_handler_fn exceptions 32 v timer_interrupt_handler,
        exceptions_lem T v,
      ),
    )

-- The vector of each handler.
abbrev vector : Handler → ℕ
vector breakpoint_handler = 3
vector double_fault_handler = 8
vector page_fault_handler = 14
vector timer_interrupt_handler = 32
vector keyboard_interrupt_handler = 33

entries-vector : (v : ℕ) (e : Entry) → entries v ≡ some e → v ≡ vector e.handler
entries-vector v e h = ground arith

-- The vectors that an outcome acknowledged; none where the handler never returns.
abbrev pub ended_by : {S : Type 0} → Outcome S → List ℕ
ended_by (returns ended called s) = ended
ended_by (halts s) = []

abbrev pub comes_back : {S : Type 0} → Outcome S → Bool
comes_back (returns ended called s) = true
comes_back (halts s) = false

abbrev pub left_by : {S : Type 0} → Outcome S → S
left_by (returns ended called s) = s
left_by (halts s) = s

module _ {C Q A : Type 0} ⦃once : OnceCell C⦄ ⦃queue : ArrayQueue Q ℕ⦄
    ⦃atomic : AtomicWaker A⦄ where
  -- What a handler owes to the vector that it stands at.
  pub record Serves (v scancode : ℕ) (s : Statics C Q A) (o : Outcome (Statics C Q A))
      : Type 0 where
    pub acknowledged : ended_by o ≡ (if leb 32 v then v ∷ [] else [])
    pub resumes : comes_back o ≡ not (v == 8 || v == 14)
    pub statics_left : left_by o ≡ (if v == 33 then (add_scancode scancode s).1 else s)

  handle-Serves :
      (h : Handler) (scancode : ℕ) (s : Statics C Q A)
      → Serves (vector h) scancode s (handle h scancode s)
  unfolding handle on_timer on_keyboard
  handle-Serves h scancode s = ground arith

  -- Each handler in the table does what its vector wants: those of the timer and the keyboard
  -- acknowledge their own vector once, and the exceptions nothing; all return but those of the double
  -- fault and the page fault; and only that of the keyboard changes the scancodes, by `add_scancode`.
  pub idt-Serves :
      {T : Type 0} ⦃table : DescriptorTable T⦄ (t : T) (v scancode : ℕ) (s : Statics C Q A)
      (e : Entry)
      → idt ≡ done t
      → table.entry t v ≡ some e
      → Serves v scancode s (handle e.handler scancode s)
  idt-Serves {T} ⦃table⦄ t v scancode s e loaded there =
      let (t', made, all) = idt_lem {T = T} in
      let same : t' ≡ t = done-injective t' t (sym made ∙ loaded) in
      let known : entries v ≡ some e = sym (all v) ∙ ap (λ u. table.entry u v) same ∙ there in
      subst (λ u. Serves u scancode s (handle e.handler scancode s))
        (sym (entries-vector v e known)) (handle-Serves e.handler scancode s)
