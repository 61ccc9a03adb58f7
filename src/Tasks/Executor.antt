-- ===== src/Tasks/Executor.antt =====
-- src/task/executor.rs: `Executor` and `TaskWaker`.
use blog_os.Base.{
  ℕ, zero, suc, List, [], ◌∷◌, Option, none, some, Exec, done, panic, ◌>>=◌, expect, Bool, true,
  false, if◌then◌else◌,
}
use blog_os.Base.Maps.{Map, lookup, insert, remove}
use blog_os.Tasks.Queues.{ArrayQueue}
use blog_os.Tasks.Futures.{Poll, ready, pending, Polled, Future, Task, task_poll}
pub mod Wakes
pub mod Sound
pub mod Returns
pub mod Fair

-- `TaskWaker`; its `task_queue` is the executor's own queue, behind an `Arc`.
pub record TaskWaker : Type 0 where
  pub task_id : ℕ

pub record Executor (F Q : Type 0) : Type 0 where
  pub tasks : Map (Task F)
  pub task_queue : Q
  pub waker_cache : Map TaskWaker

-- What `sleep_if_idle` leaves: a processor that waits for an interrupt, or one that goes on. In
-- both interrupts are enabled.
pub data Processor : Type 0 where
  halted running : Processor

module _ {Q : Type 0} ⦃queue : ArrayQueue Q ℕ⦄ where
  -- `TaskWaker::wake_task`, which `wake` and `wake_by_ref` call
  unfoldable pub wake_task : TaskWaker → Q → Exec Q
  wake_task self q = expect (queue.push q self.task_id)

  -- The calls of wakers during a poll.
  unfoldable pub wake_all : List ℕ → Q → Exec Q
  wake_all [] q = done q
  wake_all (id ∷ ids) q = do q' ← wake_task (record { task_id = id }) q; wake_all ids q'

  -- `Executor::new`
  unfoldable pub new : {F : Type 0} → Executor F Q
  new = record { tasks = []; task_queue = queue.new 100; waker_cache = [] }

  -- `Executor::spawn`
  unfoldable pub spawn : {F : Type 0} → Executor F Q → Task F → Exec (Executor F Q)
  spawn self task = elim (lookup self.tasks task.id) [
    | some old ↦ panic
    | none ↦ do
      q ← expect (queue.push self.task_queue task.id)
      done (record self { tasks = insert self.tasks task.id task; task_queue = q })
  ]

  -- `Executor::sleep_if_idle`
  unfoldable pub sleep_if_idle : {F : Type 0} → Executor F Q → Processor
  sleep_if_idle self = if queue.is_empty self.task_queue then halted else running

-- `waker_cache.entry(task_id).or_insert_with(..)`: the waker, and the cache afterwards.
unfoldable pub waker_of : Map TaskWaker → ℕ → TaskWaker × Map TaskWaker
waker_of cache id = elim (lookup cache id) [
  | some waker ↦ (waker, cache)
  | none ↦ (record { task_id = id }, insert cache id (record { task_id = id }))
]

-- The `match` on the result of a poll.
unfoldable pub settle : {F Q W : Type 0} → Executor F Q → ℕ → Task F → Polled F W → Executor F Q
settle self id task polled = elim polled.poll [
  | ready ↦ record self { tasks = remove self.tasks id; waker_cache = remove self.waker_cache id }
  | pending ↦ record self { tasks = insert self.tasks id (record task { future = polled.future }) }
]

module _ {F Q W : Type 0} ⦃queue : ArrayQueue Q ℕ⦄ ⦃fut : Future F W⦄ where
  -- What the loop of `run_ready_tasks` does with a task: the queue is without its number.
  unfoldable pub poll_task : Executor F Q → ℕ → Task F → W → Exec (Executor F Q × W)
  poll_task self id task w =
      let (waker, cache) = waker_of self.waker_cache id in
      let polled = task_poll task waker.task_id w in
      wake_all polled.woken self.task_queue >>= λ q.
      done
        (settle (record self { task_queue = q; waker_cache = cache }) id task polled, polled.world)

  -- One turn of the loop of `run_ready_tasks`; `none` where the queue is empty.
  unfoldable pub turn : Executor F Q → W → Exec (Option (Executor F Q × W))
  turn self w = elim (queue.pop self.task_queue) [
    | none ↦ done none
    | some popped ↦ elim (lookup self.tasks popped.0) [
      | none ↦ done (some (record self { task_queue = popped.1 }, w))
      | some task ↦
          poll_task (record self { task_queue = popped.1 }) popped.0 task w >>= λ r. done (some r)
    ]
  ]

  -- `Executor::run_ready_tasks`, for at most so many turns; `none` where they do not suffice.
  unfoldable pub run_ready_tasks : ℕ → Executor F Q → W → Exec (Option (Executor F Q × W))
  run_ready_tasks zero self w = done none
  run_ready_tasks (suc fuel) self w = turn self w >>= λ r. elim r [
    | none ↦ done (some (self, w))
    | some next ↦ run_ready_tasks fuel next.0 next.1
  ]
