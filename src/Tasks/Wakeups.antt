-- ===== src/Tasks/Wakeups.antt =====
-- src/task/keyboard.rs and src/task/executor.rs together: from a keyboard interrupt to the poll of
-- the task that reads the scancode.
use blog_os.Base.{
  ℕ, ◌≤◌, ◌<◌, ◌≡◌, ◌≢◌, refl, ap, sym, ◌∙◌, [], ◌∷◌, length, length-append, none, some, Exec, done,
  ◌>>=◌, false, inl, inr, All, arith,
}
use blog_os.Base.Maps.{lookup}
use blog_os.Tasks.Queues.{ArrayQueue}
use blog_os.Tasks.Futures.{Future, Task}
use blog_os.Tasks.Executor.{Executor, wake_task}
use blog_os.Tasks.Executor.Fair.{PolledAfter, run_ready_tasks-PolledAfter}
use blog_os.Tasks.Keyboard.{
  OnceCell, AtomicWaker, Statics, Added, warned_full, warned_uninitialized, queued, add_scancode,
  stream_new,
}
use blog_os.Tasks.Keyboard.Interleaving.{waiting, System, Reach, started}
use blog_os.Tasks.Keyboard.Sound.{waiting-notified}

-- The waker that `add_scancode` called, which puts its task's number into the executor's queue.
unfoldable pub wake_called : {R : Type 0} ⦃numbers : ArrayQueue R ℕ⦄ → Added → R → Exec R
wake_called warned_full q = done q
wake_called warned_uninitialized q = done q
wake_called (queued none) q = done q
wake_called (queued (some id)) q = wake_task (record { task_id = id }) q

module _ {C Q A F R : Type 0} ⦃once : OnceCell C⦄ ⦃queue : ArrayQueue Q ℕ⦄ ⦃atomic : AtomicWaker A⦄
    ⦃numbers : ArrayQueue R ℕ⦄ where
  -- `add_scancode` in the keyboard's interrupt handler, with the executor whose tasks it wakes
  unfoldable pub keyboard_interrupt :
      ℕ → Statics C Q A → Executor F R → Exec (Statics C Q A × Executor F R)
  keyboard_interrupt scancode s self =
      let (added, s') = add_scancode scancode s in
      wake_called added self.task_queue >>= λ q. done (s', record self { task_queue = q })

  module _ {W : Type 0} ⦃fut : Future F W⦄
      (quiet : (id : ℕ) (f : F) (w : W) → length (fut.poll id f w).woken ≤ 1) (id : ℕ)
      (s₀ s₁ : Statics C Q A) (t : System C Q A) (made : stream_new s₀ ≡ done s₁)
      (fresh : once.try_get s₀.cell ≡ false) (r : Reach id (started s₁) t)
      (asleep : t.place ≡ waiting) (unnoticed : t.notified ≡ false) where
    -- Where the reader was left with `Pending` and was not notified since it began to poll, and its
    -- task is in the executor but its number is not in the queue, which has room: the next keyboard
    -- interrupt returns, its scancode is the one in the reader's queue, and if every poll wakes at
    -- most one task, `run_ready_tasks` polls the reader's task after as many turns as there were
    -- numbers in the queue, and not before.
    pub keyboard_interrupt-PolledAfter :
        (scancode : ℕ) (self : Executor F R) (w : W) (task : Task F)
        → length (numbers.items self.task_queue) < numbers.cap self.task_queue
        → All (λ j. j ≢ id) (numbers.items self.task_queue)
        → lookup self.tasks id ≡ some task
        → (s : Statics C Q A) × (next : Executor F R) × (keyboard_interrupt scancode t.statics self
            ≡ done (s, next))
          × (queue.items s.scancode_queue ≡ scancode ∷ [])
          × PolledAfter (length (numbers.items self.task_queue)) next w id task
    unfolding keyboard_interrupt wake_called wake_task
    keyboard_interrupt-PolledAfter scancode self w task room new there =
        elim (waiting-notified id s₀ s₁ t made fresh r asleep) [
          | inl told ↦ let bad = sym told ∙ unnoticed in absurd cc
          | inr (empty, calls) ↦
              let (s, did, queued_there) = calls scancode in
              let (q, pushed, listed, cap) = numbers.push_room self.task_queue id room in
              let next : Executor F R = record self { task_queue = q } in
              (
                s,
                next,
                rw (keyboard_interrupt, did, wake_called, wake_task, pushed) refl,
                queued_there,
                run_ready_tasks-PolledAfter quiet (numbers.items self.task_queue) [] next w id task
                    (omega (
                      arith,
                      cap,
                      ap (λ l. length l) listed,
                      length-append (numbers.items self.task_queue) (id ∷ []),
                    ))
                    listed new there,
              )
        ]
