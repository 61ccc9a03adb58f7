-- ===== src/Tasks/Executor/Fair.antt =====
-- src/task/executor.rs: no task in the queue is passed over.
use blog_os.Base.{
  ℕ, suc, ◌+◌, ◌≤◌, ◌≡◌, ◌≢◌, refl, ap, sym, ◌∙◌, List, [], ◌∷◌, ◌++◌, append_assoc, length,
  length-append, All, Option-cases, some, done, inl, inr, arith,
}
use blog_os.Base.Maps.{lookup, lookup-insert_other, lookup-remove_other}
use blog_os.Tasks.Queues.{ArrayQueue}
use blog_os.Tasks.Futures.{Poll-cases, Polled, Future, Task, task_poll}
use blog_os.Tasks.Executor.{Executor, waker_of, settle, turn, run_ready_tasks}
use blog_os.Tasks.Executor.Wakes.{
  polled_by, behind_poll, settle-task_queue, turn_unknown, turn_known,
}

settle-lookup :
    {F Q W : Type 0} (self : Executor F Q) (id i : ℕ) (task : Task F) (polled : Polled F W)
    → i ≢ id
    → lookup (settle self id task polled).tasks i ≡ lookup self.tasks i
unfolding settle
settle-lookup self id i task polled ne = elim (Poll-cases polled.poll) [
  | inl e ↦ rw (settle, e) (lookup-remove_other self.tasks id i ne)
  | inr e ↦ rw (settle, e) (lookup-insert_other self.tasks id i _ ne)
]

module _ {F Q W : Type 0} ⦃queue : ArrayQueue Q ℕ⦄ ⦃fut : Future F W⦄ where
  -- From here the task is polled as it stands after exactly so many turns of the loop.
  pub record PolledAfter (n : ℕ) (self : Executor F Q) (w : W) (id : ℕ) (task : Task F)
      : Type 0 where
    pub before : Executor F Q
    pub world : W
    pub unchanged : lookup before.tasks id ≡ some task
    pub left : Q
    pub runs :
        (fuel : ℕ)
        → run_ready_tasks (n + suc fuel) self w
          ≡ run_ready_tasks fuel
              (behind_poll before id task world left)
              (polled_by before id task world).world

  run_turn :
      (self next : Executor F Q) (w w' : W) (n fuel : ℕ)
      → turn self w ≡ done (some (next, w'))
      → run_ready_tasks (suc n + suc fuel) self w ≡ run_ready_tasks (n + suc fuel) next w'
  unfolding run_ready_tasks
  run_turn self next w w' n fuel h =
      let count : suc n + suc fuel ≡ suc (n + suc fuel) = omega arith in
      ap (λ k. run_ready_tasks k self w) count ∙ rw (run_ready_tasks, h) refl

  module _ (quiet : (id : ℕ) (f : F) (w : W) → length (fut.poll id f w).woken ≤ 1) where
    -- If every poll wakes at most one task, `run_ready_tasks` polls a task whose number is in the
    -- queue after as many turns as there are numbers before it, and not before.
    pub run_ready_tasks-PolledAfter :
        (pre post : List ℕ) (self : Executor F Q) (w : W) (id : ℕ) (task : Task F)
        → length (queue.items self.task_queue) ≤ queue.cap self.task_queue
        → queue.items self.task_queue ≡ pre ++ (id ∷ post)
        → All (λ j. j ≢ id) pre
        → lookup self.tasks id ≡ some task
        → PolledAfter (length pre) self w id task
    unfolding task_poll run_ready_tasks
    run_ready_tasks-PolledAfter [] post self w id task room h none_before there =
        let (q, turned, all, cap) = turn_known self w id post task h there (
          omega (
            arith,
            ap (λ l. length l) h,
            quiet (waker_of self.waker_cache id).0.task_id task.future w,
          )) in
        record {
          before = self;
          world = w;
          unchanged = there;
          left = q;
          runs = λ fuel.
              let count : 0 + suc fuel ≡ suc fuel = omega arith in
              ap (λ k. run_ready_tasks k self w) count ∙ rw (run_ready_tasks, turned) refl;
        }
    run_ready_tasks-PolledAfter (j ∷ pre) post self w id task room h (ne, none_before) there =
        elim (Option-cases (lookup self.tasks j)) [
          | inl gone ↦
              let (q, turned, left, cap) = turn_unknown self w j (pre ++ (id ∷ post)) h gone in
              let later =
                run_ready_tasks-PolledAfter pre post (record self { task_queue = q }) w id task
                  (omega (arith, ap (λ l. length l) h, ap (λ l. length l) left, cap)) left
                  none_before there in
              record {
                before = later.before;
                world = later.world;
                unchanged = later.unchanged;
                left = later.left;
                runs = λ fuel.
                    run_turn self (record self { task_queue = q }) w w (length pre) fuel turned
                    ∙ later.runs fuel;
              }
          | inr (other, known) ↦
              let polled = polled_by self j other w in
              let few = quiet (waker_of self.waker_cache j).0.task_id other.future w in
              let (q, turned, all, cap) =
                turn_known self w j (pre ++ (id ∷ post)) other h known
                  (omega (arith, ap (λ l. length l) h, few)) in
              let next = behind_poll self j other w q in
              let same =
                settle-task_queue
                  (record self { task_queue = q; waker_cache = (waker_of self.waker_cache j).1 }) j
                  other polled in
              let listed : queue.items next.task_queue ≡ pre ++ (id ∷ (post ++ polled.woken)) =
                ap (λ p. queue.items p) same ∙ all ∙ append_assoc pre (id ∷ post) polled.woken in
              let kept =
                settle-lookup
                  (record self { task_queue = q; waker_cache = (waker_of self.waker_cache j).1 }) j
                  id other polled (λ e. ne (sym e)) in
              let later =
                run_ready_tasks-PolledAfter pre (post ++ polled.woken) next polled.world id task
                  (omega (
                    arith,
                    few,
                    ap (λ l. length l) h,
                    ap (λ p. length (queue.items p)) same,
                    ap (λ p. queue.cap p) same,
                    cap,
                    ap (λ l. length l) all,
                    length-append (pre ++ (id ∷ post)) polled.woken,
                  ))
                  listed none_before (kept ∙ there) in
              record {
                before = later.before;
                world = later.world;
                unchanged = later.unchanged;
                left = later.left;
                runs = λ fuel.
                    run_turn self next w polled.world (length pre) fuel turned ∙ later.runs fuel;
              }
        ]
