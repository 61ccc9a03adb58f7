-- ===== src/Tests/Executors.antt =====
-- The theorems of src/task on a queue in a list and futures that count down.
use blog_os.Base.{
  ℕ, zero, suc, ◌+◌, ◌≤◌, ◌≡◌, refl, List, [], ◌∷◌, length, some, done, arith, inl, inr,
}
use blog_os.Tests.Queues.{ListQueue, list_queue}
use blog_os.Tasks.Futures.{ready, pending, Polled, Future, Task, task_poll}
use blog_os.Tasks.SimpleExecutor.{run}
use blog_os.Tasks.SimpleExecutor.Rounds.{Round, run-Round, no_task, one_more, run-returns}
use blog_os.Tasks.Executor.{
  Executor, new, spawn, turn, poll_task, waker_of, settle, wake_all, wake_task, run_ready_tasks,
}
use blog_os.Tasks.Executor.Returns.{run_ready_tasks-returns}
use blog_os.Tasks.Executor.Fair.{PolledAfter, run_ready_tasks-PolledAfter}
use blog_os.Tasks.Executor.Sound.{IsSound, Reach, here, next, spawned, turned, Reach-new-IsSound}

-- A future that is pending so many times, wakes its own task each time, and counts all polls.
abbrev pub count_down : ℕ → ℕ → ℕ → Polled ℕ ℕ
count_down id zero w = record { poll = ready; future = zero; world = w + 1; woken = [] }
count_down id (suc n) w = record { poll = pending; future = n; world = w + 1; woken = id ∷ [] }

instance abbrev pub counting : Future ℕ ℕ
counting = record { poll = count_down }

abbrev first_task : Task ℕ
first_task = record { id = 0; future = 1 }

abbrev second_task : Task ℕ
second_task = record { id = 1; future = 0 }

run-returns_example :
    (w : ℕ) × (run 3 (record { task_queue = first_task ∷ second_task ∷ [] }) 0
      ≡ some (record { task_queue = [] }, w))
run-returns_example =
    run-returns 3 3 (first_task ∷ second_task ∷ []) 0
      (one_more 2 1 (λ id w. inr (refl, λ id' w'. inl refl))
        (one_more 1 0 (λ id w. inl refl) no_task))
      (omega arith)

run-Round_example :
    (left : List (Task ℕ)) × (w : ℕ) × Round (first_task ∷ second_task ∷ []) 0 left w
    × (run 3 (record { task_queue = first_task ∷ second_task ∷ [] }) 0
        ≡ run 1 (record { task_queue = left }) w)
run-Round_example = run-Round 1 (first_task ∷ second_task ∷ []) 0

-- An executor with both tasks, both in the queue.
abbrev busy : Executor ℕ ListQueue
busy = record {
  tasks = (0, first_task) ∷ (1, second_task) ∷ [];
  task_queue = record { listed = 0 ∷ 1 ∷ []; size = 100 };
  waker_cache = [];
}

falls : (id f w : ℕ) → (count_down id f w).future + length (count_down id f w).woken ≤ f
falls id zero w = omega arith
falls id (suc n) w = omega arith

pub quiet : (id f w : ℕ) → length (count_down id f w).woken ≤ 1
quiet id zero w = omega arith
quiet id (suc n) w = omega arith

run_ready_tasks-returns_example :
    (self' : Executor ℕ ListQueue) × (w' : ℕ) × (run_ready_tasks 4 busy 0 ≡ done (some (self', w')))
    × (self'.task_queue.listed ≡ [])
run_ready_tasks-returns_example =
    run_ready_tasks-returns (λ f. f) falls 4 busy 0 (omega arith) (omega arith)

run_ready_tasks-PolledAfter_example : PolledAfter {W = ℕ} 1 busy 0 1 second_task
run_ready_tasks-PolledAfter_example =
    run_ready_tasks-PolledAfter quiet (0 ∷ []) [] busy 0 1 second_task (omega arith) refl
      (omega arith, tt) refl

-- The first task, spawned and polled once.
abbrev polled_once : Executor ℕ ListQueue
polled_once = record {
  tasks = (0, record { id = 0; future = 0 }) ∷ [];
  task_queue = record { listed = 0 ∷ []; size = 100 };
  waker_cache = (0, record { task_id = 0 }) ∷ [];
}

polled_once-Reach : Reach {W = ℕ} (new, 0) (polled_once, 1)
unfolding new spawn turn poll_task task_poll waker_of settle wake_all wake_task
polled_once-Reach = next (next here (spawned first_task refl)) (turned refl)

Reach-new-IsSound_example : IsSound polled_once
Reach-new-IsSound_example = Reach-new-IsSound {W = ℕ} 0 (polled_once, 1) polled_once-Reach
