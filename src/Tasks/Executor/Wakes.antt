-- ===== src/Tasks/Executor/Wakes.antt =====
-- src/task/executor.rs: what a call of a waker, and one turn of the loop, leave in the queue.
use blog_os.Base.{
  ℕ, ◌+◌, ◌≤◌, ◌≡◌, refl, ap, sym, ◌∙◌, List, [], ◌∷◌, ◌++◌, append-nil, append_assoc, length,
  length-append, none, some, done, inl, inr, arith,
}
use blog_os.Base.Maps.{lookup}
use blog_os.Tasks.Queues.{ArrayQueue}
use blog_os.Tasks.Futures.{Poll-cases, Polled, Future, Task, task_poll}
use blog_os.Tasks.Executor.{Executor, wake_task, wake_all, waker_of, settle, poll_task, turn}

module _ {Q : Type 0} ⦃queue : ArrayQueue Q ℕ⦄ where
  -- With room for the numbers, the calls of the wakers put them behind the others, in order.
  pub wake_all_lem :
      (ids : List ℕ) (q : Q)
      → length (queue.items q) + length ids ≤ queue.cap q
      → (q' : Q) × (wake_all ids q ≡ done q')
        × (queue.items q' ≡ queue.items q ++ ids)
        × (queue.cap q' ≡ queue.cap q)
  unfolding wake_all wake_task
  wake_all_lem [] q h = (q, refl, sym (append-nil (queue.items q)), refl)
  wake_all_lem (id ∷ ids) q h =
      let (q₁, pushed, listed, cap) = queue.push_room q id (omega arith) in
      let (q', rest, all, cap') =
        wake_all_lem ids q₁ (
          omega (arith, cap, ap (λ l. length l) listed, length-append (queue.items q) (id ∷ []))) in
      (
        q',
        rw (wake_all, wake_task, pushed, rest) refl,
        all ∙ ap (λ l. l ++ ids) listed ∙ append_assoc (queue.items q) (id ∷ []) ids,
        cap' ∙ cap,
      )

module _ {F Q W : Type 0} ⦃queue : ArrayQueue Q ℕ⦄ ⦃fut : Future F W⦄ where
  -- The poll that a turn makes.
  abbrev pub polled_by : Executor F Q → ℕ → Task F → W → Polled F W
  polled_by self id task w = task_poll task (waker_of self.waker_cache id).0.task_id w

  -- The executor behind a poll of the task that leaves the queue so.
  abbrev pub behind_poll : Executor F Q → ℕ → Task F → W → Q → Executor F Q
  behind_poll self id task w q =
      settle (record self { task_queue = q; waker_cache = (waker_of self.waker_cache id).1 }) id
        task (polled_by self id task w)

  pub settle-task_queue :
      (self : Executor F Q) (id : ℕ) (task : Task F) (polled : Polled F W)
      → (settle self id task polled).task_queue ≡ self.task_queue
  unfolding settle
  settle-task_queue self id task polled = elim (Poll-cases polled.poll) [
    | inl e ↦ rw (settle, e) refl
    | inr e ↦ rw (settle, e) refl
  ]

  -- With an empty queue a turn ends the loop.
  pub turn_empty :
      (self : Executor F Q) (w : W) → queue.items self.task_queue ≡ [] → turn self w ≡ done none
  unfolding turn
  turn_empty self w h = rw (turn, queue.pop_empty self.task_queue h) refl

  -- A number that is no task's is dropped.
  pub turn_unknown :
      (self : Executor F Q) (w : W) (id : ℕ) (rest : List ℕ)
      → queue.items self.task_queue ≡ id ∷ rest
      → lookup self.tasks id ≡ none
      → (q : Q) × (turn self w ≡ done (some (record self { task_queue = q }, w)))
        × (queue.items q ≡ rest)
        × (queue.cap q ≡ queue.cap self.task_queue)
  unfolding turn
  turn_unknown self w id rest h gone =
      let (q, popped, left, cap) = queue.pop_first self.task_queue id rest h in
      (q, rw (turn, popped, gone) refl, left, cap)

  -- A task's number is taken from the queue, the task is polled, and the tasks that it wakes go
  -- behind the others, where they have room.
  pub turn_known :
      (self : Executor F Q) (w : W) (id : ℕ) (rest : List ℕ) (task : Task F)
      → queue.items self.task_queue ≡ id ∷ rest
      → lookup self.tasks id ≡ some task
      → length rest + length (polled_by self id task w).woken ≤ queue.cap self.task_queue
      → (q : Q) × (turn self w
          ≡ done (some (behind_poll self id task w q, (polled_by self id task w).world)))
        × (queue.items q ≡ rest ++ (polled_by self id task w).woken)
        × (queue.cap q ≡ queue.cap self.task_queue)
  unfolding turn poll_task
  turn_known self w id rest task h there room =
      let (q, popped, left, cap) = queue.pop_first self.task_queue id rest h in
      let (q', woken, all, cap') =
        wake_all_lem (polled_by self id task w).woken q
          (omega (arith, cap, ap (λ l. length l) left)) in
      (
        q',
        rw (turn, popped, there, poll_task, woken) refl,
        all ∙ ap (λ l. l ++ (polled_by self id task w).woken) left,
        cap' ∙ cap,
      )
