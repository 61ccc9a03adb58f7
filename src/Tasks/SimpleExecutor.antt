-- ===== src/Tasks/SimpleExecutor.antt =====
-- src/task/simple_executor.rs: `SimpleExecutor`.
use blog_os.Base.{ℕ, zero, suc, List, [], ◌∷◌, ◌++◌, Option, none, some}
use blog_os.Tasks.Futures.{Poll, ready, pending, Polled, Future, Task, task_poll}
pub mod Rounds

pub record SimpleExecutor (F : Type 0) : Type 0 where
  pub task_queue : List (Task F)

-- `SimpleExecutor::new`
unfoldable pub new : {F : Type 0} → SimpleExecutor F
new = record { task_queue = [] }

-- `SimpleExecutor::spawn`: `push_back`
unfoldable pub spawn : {F : Type 0} → SimpleExecutor F → Task F → SimpleExecutor F
spawn self task = record { task_queue = self.task_queue ++ (task ∷ []) }

module _ {F W : Type 0} ⦃fut : Future F W⦄ where
  -- The `match` in the loop: what is in the queue after one poll of the task before it. A waker of
  -- `dummy_waker` does nothing, so the task's number is not read.
  unfoldable pub after_poll : Task F → List (Task F) → Polled F W → List (Task F)
  after_poll task rest polled = elim polled.poll [
    | ready ↦ rest
    | pending ↦ rest ++ (record task { future = polled.future } ∷ [])
  ]

  -- The loop of `run`, for at most so many polls; `none` where they do not suffice.
  unfoldable pub run_queue : ℕ → List (Task F) → W → Option (List (Task F) × W)
  run_queue fuel [] w = some ([], w)
  run_queue zero (task ∷ rest) w = none
  run_queue (suc fuel) (task ∷ rest) w =
      let polled = task_poll task task.id w in
      run_queue fuel (after_poll task rest polled) polled.world

  -- `SimpleExecutor::run`
  unfoldable pub run : ℕ → SimpleExecutor F → W → Option (SimpleExecutor F × W)
  run fuel self w = elim (run_queue fuel self.task_queue w) [
    | none ↦ none
    | some left ↦ some (record { task_queue = left.0 }, left.1)
  ]
