-- ===== src/Tasks/Keyboard.antt =====
-- src/task/keyboard.rs: `add_scancode`, `ScancodeStream` and the body of `print_keypresses`.
use blog_os.Base.{
  ℕ, ◌≡◌, List, [], ◌∷◌, ◌++◌, Option, none, some, Result, ok, err, Exec, done, panic, expect, Bool,
  true, false, if◌then◌else◌,
}
use blog_os.Tasks.Queues.{ArrayQueue}
pub mod Interleaving
pub mod Calls
pub mod Sound
pub mod Atomic
pub mod Draining

-- The `conquer_once` crate's `OnceCell`: whether it is initialized, and `try_init_once`, which
-- gives nothing where it already is. What it holds stands beside it.
pub record OnceCell (C : Type 0) : Type 0 where
  pub uninit : C
  pub try_get : C → Bool
  pub try_init_once : C → Option C
  pub try_get-uninit : try_get uninit ≡ false
  pub first_init :
      (c : C) → try_get c ≡ false → (c' : C) × (try_init_once c ≡ some c') × (try_get c' ≡ true)
  pub again : (c : C) → try_get c ≡ true → try_init_once c ≡ none

-- The `futures_util` crate's `AtomicWaker`; a waker is the number of its task. `wake` calls the
-- waker that was registered last, if any, which it takes; `take` takes it and does not call it.
pub record AtomicWaker (A : Type 0) : Type 0 where
  pub new : A
  pub register : A → ℕ → A
  pub wake : A → Option ℕ × A
  pub take : A → Option ℕ × A
  pub registered : A → Option ℕ
  pub registered-new : registered new ≡ none
  pub registered-register : (a : A) (id : ℕ) → registered (register a id) ≡ some id
  pub wake_calls : (a : A) → (wake a).0 ≡ registered a
  pub wake_takes : (a : A) → registered (wake a).1 ≡ none
  pub take_takes : (a : A) → registered (take a).1 ≡ none

-- The statics: `SCANCODE_QUEUE`, its contents, and `SCANCODE_WAKER`.
pub record Statics (C Q A : Type 0) : Type 0 where
  pub cell : C
  pub scancode_queue : Q
  pub scancode_waker : A

-- What `add_scancode` does: it warns, or queues the scancode and calls a waker if there is one.
pub data Added : Type 0 where
  warned_full warned_uninitialized : Added
  queued : Option ℕ → Added

-- `Poll<Option<u8>>` as `poll_next` returns it
pub data Polled : Type 0 where
  ready : ℕ → Polled
  pending : Polled

module _ {C Q A : Type 0} ⦃once : OnceCell C⦄ ⦃queue : ArrayQueue Q ℕ⦄
    ⦃atomic : AtomicWaker A⦄ where
  -- `add_scancode`
  unfoldable pub add_scancode : ℕ → Statics C Q A → Added × Statics C Q A
  add_scancode scancode s =
      if once.try_get s.cell
      then (elim (queue.push s.scancode_queue scancode) [
        | none ↦ (warned_full, s)
        | some q ↦
            let (called, waker) = atomic.wake s.scancode_waker in
            (queued called, record s { scancode_queue = q; scancode_waker = waker })
      ])
      else (warned_uninitialized, s)

  -- `ScancodeStream::new`
  unfoldable pub stream_new : Statics C Q A → Exec (Statics C Q A)
  stream_new s = elim (once.try_init_once s.cell) [
    | none ↦ panic
    | some cell ↦ done (record s { cell = cell; scancode_queue = queue.new 100 })
  ]

  -- The steps of `poll_next`: a `pop`, `register`, and `take`.
  unfoldable pub pop : Statics C Q A → Option (ℕ × Statics C Q A)
  pop s = elim (queue.pop s.scancode_queue) [
    | none ↦ none
    | some popped ↦ some (popped.0, record s { scancode_queue = popped.1 })
  ]

  unfoldable pub register : ℕ → Statics C Q A → Statics C Q A
  register id s = record s { scancode_waker = atomic.register s.scancode_waker id }

  unfoldable pub take_waker : Statics C Q A → Statics C Q A
  take_waker s = record s { scancode_waker = (atomic.take s.scancode_waker).1 }

  -- `ScancodeStream::poll_next` with the waker of the task `id`
  unfoldable pub poll_next : ℕ → Statics C Q A → Exec (Polled × Statics C Q A)
  poll_next id s =
      if once.try_get s.cell
      then (elim (pop s) [
        | some first ↦ done (ready first.0, first.1)
        | none ↦ elim (pop (register id s)) [
          | some second ↦ done (ready second.0, take_waker second.1)
          | none ↦ done (pending, register id s)
        ]
      ])
      else panic

-- `DecodedKey` of the `pc_keyboard` crate
pub data DecodedKey : Type 0 where
  raw_key unicode : ℕ → DecodedKey

-- The `pc_keyboard` crate's `Keyboard`: its state, events and errors are its own.
pub record Keyboard (K Event E : Type 0) : Type 0 where
  pub add_byte : K → ℕ → Result E (Option Event) × K
  pub process_keyevent : K → Event → Option DecodedKey × K

-- `match key`: the characters that are printed
abbrev pub printed : Option DecodedKey → List ℕ
printed none = []
printed (some (raw_key key)) = []
printed (some (unicode character)) = character ∷ []

-- The body of the loop of `print_keypresses`
unfoldable pub on_scancode : {K Event E : Type 0} → Keyboard K Event E → K → ℕ → List ℕ × K
on_scancode keyboard k scancode =
    let (added, k₁) = keyboard.add_byte k scancode in
    elim added [
      | err e ↦ ([], k₁)
      | ok event ↦ elim event [
        | none ↦ ([], k₁)
        | some key_event ↦
            let (key, k₂) = keyboard.process_keyevent k₁ key_event in (printed key, k₂)
      ]
    ]
