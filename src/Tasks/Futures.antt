-- ===== src/Tasks/Futures.antt =====
-- src/task/mod.rs: `Task` and `TaskId`. Also the trait `Future` as the executors call it.
use blog_os.Base.{ℕ, ◌+◌, ◌%◌, ◌^◌, ◌≡◌, refl, ◌⊎◌, inl, inr, List}

-- `core::task::Poll<()>`
pub data Poll : Type 0 where
  ready pending : Poll

pub Poll-cases : (p : Poll) → (p ≡ ready) ⊎ (p ≡ pending)
Poll-cases ready = inl refl
Poll-cases pending = inr refl

-- What one call of `Future::poll` leaves: its result, the future, the rest of the program's state,
-- and the tasks whose wakers it called, in order.
pub record Polled (F W : Type 0) : Type 0 where
  pub poll : Poll
  pub future : F
  pub world : W
  pub woken : List ℕ

-- `dyn Future<Output = ()>`: `poll` on a context whose waker is the given task's.
pub record Future (F W : Type 0) : Type 0 where
  pub poll : ℕ → F → W → Polled F W

-- `Task`; a `TaskId` is its number.
pub record Task (F : Type 0) : Type 0 where
  pub id : ℕ
  pub future : F

-- `TaskId::new`: `fetch_add` on `NEXT_ID`, an `AtomicU64`, which wraps around. The second component
-- is the counter afterwards.
unfoldable pub task_id_new : ℕ → ℕ × ℕ
task_id_new next_id = (next_id, (next_id + 1) % 2 ^ 64)

-- `Task::new`
unfoldable pub task_new : {F : Type 0} → F → ℕ → Task F × ℕ
task_new future next_id =
    let (id, next) = task_id_new next_id in (record { id = id; future = future }, next)

module _ {F W : Type 0} ⦃fut : Future F W⦄ where
  -- `Task::poll`
  unfoldable pub task_poll : Task F → ℕ → W → Polled F W
  task_poll task waker w = fut.poll waker task.future w
