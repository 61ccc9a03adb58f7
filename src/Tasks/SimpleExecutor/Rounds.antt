-- ===== src/Tasks/SimpleExecutor/Rounds.antt =====
-- src/task/simple_executor.rs: what `SimpleExecutor::run` does.
use blog_os.Base.{
  ℕ, zero, suc, ◌+◌, ◌≤◌, ◌≡◌, refl, ap, sym, ◌∙◌, subst, List, [], ◌∷◌, ◌++◌, append-nil,
  append_assoc, length, some, ◌⊎◌, inl, inr, arith,
}
use blog_os.Tasks.Futures.{Poll-cases, ready, pending, Future, Task, task_poll}
use blog_os.Tasks.SimpleExecutor.{after_poll, run_queue, run}

module _ {F W : Type 0} ⦃fut : Future F W⦄ where
  -- One poll of each task in turn: the tasks that are left, those whose future was pending, with
  -- what became of the future, and the state afterwards.
  pub data Round : List (Task F) → W → List (Task F) → W → Type 0 where
    nobody : {w : W} → Round [] w [] w
    finished :
        {task : Task F} {rest left : List (Task F)} {w w' : W}
        → (fut.poll task.id task.future w).poll ≡ ready
        → Round rest (fut.poll task.id task.future w).world left w'
        → Round (task ∷ rest) w left w'
    unfinished :
        {task : Task F} {rest left : List (Task F)} {w w' : W}
        → (fut.poll task.id task.future w).poll ≡ pending
        → Round rest (fut.poll task.id task.future w).world left w'
        → Round
            (task ∷ rest)
            w
            (record { id = task.id; future = (fut.poll task.id task.future w).future } ∷ left)
            w'

  -- The tasks of the queue's front are polled, and what is left of them goes to its back.
  rotate :
      (fuel n : ℕ) (tasks acc : List (Task F)) (w : W)
      → n ≡ length tasks + fuel
      → (left : List (Task F)) × (w' : W) × Round tasks w left w'
        × (run_queue n (tasks ++ acc) w ≡ run_queue fuel (acc ++ left) w')
  unfolding run_queue after_poll task_poll
  rotate fuel n [] acc w e =
      ([], w, nobody, rw (append-nil acc, e) (ap (λ n. run_queue n acc w) (omega arith)))
  rotate fuel zero (task ∷ rest) acc w e = absurd (omega arith)
  rotate fuel (suc n) (task ∷ rest) acc w e =
      let polled = fut.poll task.id task.future w in
      let kept : Task F = record { id = task.id; future = polled.future } in
      elim (Poll-cases polled.poll) [
        | inl done ↦
            let (left, w', r, went) = rotate fuel n rest acc polled.world (omega arith) in
            (left, w', finished done r, rw (run_queue, after_poll, task_poll, done) went)
        | inr more ↦
            let (left, w', r, went) =
              rotate fuel n rest (acc ++ (kept ∷ [])) polled.world (omega arith) in
            (
              kept ∷ left,
              w',
              unfinished more r,
              rw (run_queue, after_poll, task_poll, more, append_assoc rest acc (kept ∷ []))
                  (went ∙ ap (λ q. run_queue fuel q w') (append_assoc acc (kept ∷ []) left)),
            )
      ]

  -- `run` polls the tasks in rounds: as many turns of its loop as the queue has tasks poll each of
  -- them once, in order, drop those that are ready, and keep in order those that are pending, with
  -- what became of their futures.
  pub run-Round :
      (fuel : ℕ) (tasks : List (Task F)) (w : W)
      → (left : List (Task F)) × (w' : W) × Round tasks w left w'
        × (run (length tasks + fuel) (record { task_queue = tasks }) w
            ≡ run fuel (record { task_queue = left }) w')
  unfolding run
  run-Round fuel tasks w =
      let (left, w', r, went) = rotate fuel (length tasks + fuel) tasks [] w refl in
      let turned = ap (λ q. run_queue (length tasks + fuel) q w) (sym (append-nil tasks)) ∙ went in
      (left, w', r, rw (run, turned) refl)

-- The future is ready after at most so many polls, whatever the state in which they are made.
abbrev pub FinishesIn : {F : Type 0} (W : Type 0) ⦃fut : Future F W⦄ → ℕ → F → Type 0
FinishesIn W zero f = ⊥
FinishesIn W ⦃fut⦄ (suc n) f =
    (id : ℕ) (w : W)
    → ((fut.poll id f w).poll ≡ ready)
      ⊎ (((fut.poll id f w).poll ≡ pending) × FinishesIn W n (fut.poll id f w).future)

-- Each task finishes, after at most so many polls of them together.
pub data AllFinishIn {F : Type 0} (W : Type 0) ⦃fut : Future F W⦄ : List (Task F) → ℕ → Type 0 where
  no_task : AllFinishIn W [] 0
  one_more :
      {task : Task F} {rest : List (Task F)} (k n : ℕ)
      → FinishesIn W k task.future
      → AllFinishIn W rest n
      → AllFinishIn W (task ∷ rest) (k + n)

module _ {F W : Type 0} ⦃fut : Future F W⦄ where
  AllFinishIn-append :
      {tasks : List (Task F)} {n : ℕ} (task : Task F) (k : ℕ)
      → AllFinishIn W tasks n
      → FinishesIn W k task.future
      → AllFinishIn W (tasks ++ (task ∷ [])) (n + k)
  AllFinishIn-append task k no_task h =
      subst (AllFinishIn W _) (omega arith) (one_more k 0 h no_task)
  AllFinishIn-append task k (one_more j m f rest) h =
      subst (AllFinishIn W _) (omega arith)
        (one_more j (m + k) f (AllFinishIn-append task k rest h))

  after_poll-AllFinishIn :
      (task : Task F) (rest : List (Task F)) (k m : ℕ) (w : W)
      → FinishesIn W (suc k) task.future
      → AllFinishIn W rest m
      → (n : ℕ) × AllFinishIn W (after_poll task rest (task_poll task task.id w)) n × (n ≤ m + k)
  unfolding after_poll task_poll
  after_poll-AllFinishIn task rest k m w f h = elim (f task.id w) [
    | inl done ↦ (m, rw (after_poll, done) h, omega arith)
    | inr (more, f') ↦ (m + k, rw (after_poll, more) (AllFinishIn-append _ k h f'), omega arith)
  ]

  turns_end :
      (fuel n : ℕ) (tasks : List (Task F)) (w : W)
      → AllFinishIn W tasks n
      → n ≤ fuel
      → (w' : W) × (run_queue fuel tasks w ≡ some ([], w'))
  unfolding run_queue
  turns_end fuel n [] w h le = (w, refl)
  turns_end fuel n (task ∷ rest) w (one_more zero m f h) le = absurd f
  turns_end zero n (task ∷ rest) w (one_more (suc k) m f h) le = absurd (omega arith)
  turns_end (suc fuel) n (task ∷ rest) w (one_more (suc k) m f h) le =
      let (n', h', le') = after_poll-AllFinishIn task rest k m w f h in
      let polled = task_poll task task.id w in
      turns_end fuel n' (after_poll task rest polled) polled.world h' (omega arith)

  -- `run` returns, with an empty queue, if each task's future is ready after finitely many polls:
  -- as many turns of its loop as the polls together are enough.
  pub run-returns :
      (fuel n : ℕ) (tasks : List (Task F)) (w : W)
      → AllFinishIn W tasks n
      → n ≤ fuel
      → (w' : W) × (run fuel (record { task_queue = tasks }) w
          ≡ some (record { task_queue = [] }, w'))
  unfolding run
  run-returns fuel n tasks w h le =
      let (w', e) = turns_end fuel n tasks w h le in (w', rw (run, e) refl)
