-- ===== src/Tasks/Executor/Returns.antt =====
-- src/task/executor.rs: `run_ready_tasks` returns.
use blog_os.Base.{
  ℕ, zero, suc, ◌+◌, ◌≤◌, ◌<◌, ◌≡◌, refl, ap, ◌∙◌, [], length, length-append, List-cases,
  Option-cases, some, done, inl, inr, arith,
}
use blog_os.Base.Maps.{Map, lookup, total, total-insert, total-remove}
use blog_os.Tasks.Queues.{ArrayQueue}
use blog_os.Tasks.Futures.{Poll-cases, Future, Task, task_poll}
use blog_os.Tasks.Executor.{Executor, TaskWaker, waker_of, settle, run_ready_tasks}
use blog_os.Tasks.Executor.Wakes.{
  polled_by, behind_poll, settle-task_queue, turn_empty, turn_unknown, turn_known,
}

module _ {F Q W : Type 0} ⦃queue : ArrayQueue Q ℕ⦄ ⦃fut : Future F W⦄ (credit : F → ℕ)
    (falls : (id : ℕ) (f : F) (w : W)
      → credit (fut.poll id f w).future + length (fut.poll id f w).woken ≤ credit f) where
  -- How often the tasks may wake one another yet.
  abbrev pub credits : Executor F Q → ℕ
  credits self = total (λ t. credit t.future) self.tasks

  settle-credits :
      (self : Executor F Q) (id : ℕ) (task : Task F) (w : W) (cache : Map TaskWaker) (q : Q) (k : ℕ)
      → lookup self.tasks id ≡ some task
      → credits (
            settle
              (record self { task_queue = q; waker_cache = cache })
              id
              task
              (fut.poll k task.future w))
          + length (fut.poll k task.future w).woken
        ≤ credits self
  unfolding settle
  settle-credits self id task w cache q k there =
      elim (Poll-cases (fut.poll k task.future w).poll) [
        | inl e ↦
            rw (settle, e)
              (omega (
                arith,
                total-remove (λ t. credit t.future) self.tasks id task there,
                falls k task.future w,
              ))
        | inr e ↦
            rw (settle, e)
              (omega (
                arith,
                total-insert (λ t. credit t.future) self.tasks id task
                    (record task { future = (fut.poll k task.future w).future }) there,
                falls k task.future w,
              ))
      ]

  -- If the numbers in the queue and the wake-ups that the tasks may still make have room in the
  -- queue together, then `run_ready_tasks` returns without a panic, with an empty queue: one turn
  -- more than they are is enough.
  pub run_ready_tasks-returns :
      (fuel : ℕ) (self : Executor F Q) (w : W)
      → length (queue.items self.task_queue) + credits self ≤ queue.cap self.task_queue
      → length (queue.items self.task_queue) + credits self < fuel
      → (self' : Executor F Q) × (w' : W) × (run_ready_tasks fuel self w ≡ done (some (self', w')))
        × (queue.items self'.task_queue ≡ [])
  unfolding run_ready_tasks task_poll
  run_ready_tasks-returns zero self w room h = absurd (omega arith)
  run_ready_tasks-returns (suc fuel) self w room h =
      elim (List-cases (queue.items self.task_queue)) [
        | inl e ↦ (self, w, rw (run_ready_tasks, turn_empty self w e) refl, e)
        | inr (id, rest, e) ↦ elim (Option-cases (lookup self.tasks id)) [
          | inl gone ↦
              let (q, turned, left, cap) = turn_unknown self w id rest e gone in
              let (self', w', ran, empty) =
                run_ready_tasks-returns fuel (record self { task_queue = q }) w
                  (omega (arith, ap (λ l. length l) e, ap (λ l. length l) left, cap))
                  (omega (arith, ap (λ l. length l) e, ap (λ l. length l) left)) in
              (self', w', rw (run_ready_tasks, turned, ran) refl, empty)
          | inr (task, there) ↦
              let polled = polled_by self id task w in
              let few =
                settle-credits self id task w [] self.task_queue
                  (waker_of self.waker_cache id).0.task_id there in
              let (q, turned, all, cap) =
                turn_known self w id rest task e there (omega (arith, few, ap (λ l. length l) e)) in
              let next = behind_poll self id task w q in
              let less : credits next + length polled.woken ≤ credits self =
                settle-credits self id task w (waker_of self.waker_cache id).1 q
                  (waker_of self.waker_cache id).0.task_id there in
              let same =
                settle-task_queue
                  (record self { task_queue = q; waker_cache = (waker_of self.waker_cache id).1 })
                  id task polled in
              let size : length (queue.items next.task_queue) ≡ length rest + length polled.woken =
                ap (λ p. length (queue.items p)) same
                ∙ ap (λ l. length l) all
                ∙ length-append rest polled.woken in
              let (self', w', ran, empty) =
                run_ready_tasks-returns fuel next polled.world
                  (omega (arith, less, size, ap (λ p. queue.cap p) same, cap, ap (λ l. length l) e))
                  (omega (arith, less, size, ap (λ l. length l) e)) in
              (self', w', rw (run_ready_tasks, turned, ran) refl, empty)
        ]
      ]
