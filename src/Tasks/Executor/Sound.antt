-- ===== src/Tasks/Executor/Sound.antt =====
-- src/task/executor.rs: what holds of an executor whatever is spawned, polled and woken.
use native.Mathlib.Decide.{dec_lt}
use blog_os.Base.{
  ℕ, ◌≤◌, ◌<◌, ◌≡◌, refl, ap, sym, ◌∙◌, subst, List, [], ◌∷◌, ◌++◌, length, length-append,
  List-cases, Option-cases, some, some-injective, done, >>=-eq-done, done-injective, expect, inl,
  inr, arith,
}
use blog_os.Base.Maps.{
  lookup, insert, remove, lookup-insert-cases, lookup-insert-known, lookup-remove-cases,
  lookup-remove_other,
}
use blog_os.Tasks.Queues.{ArrayQueue}
use blog_os.Tasks.Futures.{Poll-cases, Polled, Future, Task}
use blog_os.Tasks.Executor.{
  Executor, TaskWaker, wake_task, wake_all, new, waker_of, settle, poll_task, turn, spawn,
}
use blog_os.Tasks.Executor.Wakes.{polled_by, turn_empty}

module _ {F Q : Type 0} ⦃queue : ArrayQueue Q ℕ⦄ where
  -- A task stands under its own number; a cached waker is that of a task that is not done; the
  -- queue has at most 100 numbers, and its capacity never changes.
  pub record IsSound (self : Executor F Q) : Type 0 where
    pub keyed : (id : ℕ) (task : Task F) → lookup self.tasks id ≡ some task → task.id ≡ id
    pub cached :
        (id : ℕ) (waker : TaskWaker) → lookup self.waker_cache id ≡ some waker → waker.task_id ≡ id
    pub live :
        (id : ℕ) (waker : TaskWaker)
        → lookup self.waker_cache id ≡ some waker
        → (task : Task F) × (lookup self.tasks id ≡ some task)
    pub capacity : queue.cap self.task_queue ≡ 100
    pub bounded : length (queue.items self.task_queue) ≤ 100

  new-IsSound : IsSound new
  unfolding new
  new-IsSound = record {
    keyed = λ id task e. absurd cc;
    cached = λ id waker e. absurd cc;
    live = λ id waker e. absurd cc;
    capacity = queue.cap-new 100;
    bounded = omega (arith, ap (λ l. length l) (queue.items-new 100));
  }

module _ {Q : Type 0} ⦃queue : ArrayQueue Q ℕ⦄ where
  push-bounds :
      (q q' : Q) (id : ℕ)
      → expect (queue.push q id) ≡ done q'
      → (length (queue.items q) < queue.cap q)
        × (queue.items q' ≡ queue.items q ++ (id ∷ []))
        × (queue.cap q' ≡ queue.cap q)
  push-bounds q q' id h = elim (dec_lt (length (queue.items q)) (queue.cap q)) [
    | no full ↦ let stopped = rw (queue.push_full q id (omega arith)) at h in absurd cc
    | yes room ↦
        let (p, pushed, listed, cap) = queue.push_room q id room in
        let same : p ≡ q' = done-injective _ _ (rw pushed at h) in
        (room, ap (λ r. queue.items r) (sym same) ∙ listed, ap (λ r. queue.cap r) (sym same) ∙ cap)
  ]

  wake_all-bounds :
      (ids : List ℕ) (q q' : Q)
      → wake_all ids q ≡ done q'
      → length (queue.items q) ≤ queue.cap q
      → (length (queue.items q') ≤ queue.cap q') × (queue.cap q' ≡ queue.cap q)
  unfolding wake_all wake_task
  wake_all-bounds [] q q' h le =
      let same = done-injective _ _ h in
      (subst (λ p. length (queue.items p) ≤ queue.cap p) same le, ap (λ p. queue.cap p) (sym same))
  wake_all-bounds (id ∷ ids) q q' h le =
      let (p, pushed, rest) = >>=-eq-done (expect (queue.push q id)) (wake_all ids) h in
      let (room, listed, cap) = push-bounds q p id pushed in
      let (le', cap') =
        wake_all-bounds ids p q' rest (
          omega (arith, cap, ap (λ l. length l) listed, length-append (queue.items q) (id ∷ []))) in
      (le', cap' ∙ cap)

module _ {F Q W : Type 0} ⦃queue : ArrayQueue Q ℕ⦄ ⦃fut : Future F W⦄ where
  -- A task that is spawned, a turn of the loop of `run_ready_tasks`, a waker that an interrupt
  -- handler calls, and any other change of the program's state. What panics makes no step.
  pub data Step (s : Executor F Q × W) : Executor F Q × W → Type 0 where
    spawned :
        (task : Task F) {self : Executor F Q} → spawn s.0 task ≡ done self → Step s (self, s.1)
    turned : {t : Executor F Q × W} → turn s.0 s.1 ≡ done (some t) → Step s t
    woken :
        (waker : TaskWaker) {q : Q}
        → wake_task waker s.0.task_queue ≡ done q
        → Step s (record { tasks = s.0.tasks; task_queue = q; waker_cache = s.0.waker_cache }, s.1)
    elsewhere : (w : W) → Step s (s.0, w)

  pub data Reach (s : Executor F Q × W) : Executor F Q × W → Type 0 where
    here : Reach s s
    next : {t u : Executor F Q × W} → Reach s t → Step t u → Reach s u

module _ {F Q : Type 0} ⦃queue : ArrayQueue Q ℕ⦄ where
  queue-IsSound :
      (self : Executor F Q) (q : Q)
      → IsSound self
      → length (queue.items q) ≤ queue.cap q
      → queue.cap q ≡ queue.cap self.task_queue
      → IsSound (record self { task_queue = q })
  queue-IsSound self q h le cap = record {
    keyed = h.keyed;
    cached = h.cached;
    live = h.live;
    capacity = cap ∙ h.capacity;
    bounded = omega (arith, le, cap, h.capacity);
  }

  insert-IsSound :
      (self : Executor F Q) (id : ℕ) (task : Task F)
      → IsSound self
      → task.id ≡ id
      → IsSound (record self { tasks = insert self.tasks id task })
  insert-IsSound self id task h own = record {
    keyed = λ i t there. elim (lookup-insert-cases self.tasks id i t task there) [
      | inl (own_key, same) ↦ ap (λ (x : Task F). x.id) same ∙ own ∙ sym own_key
      | inr (ne, known) ↦ h.keyed i t known
    ];
    cached = h.cached;
    live = λ i waker there.
        let (t, known) = h.live i waker there in lookup-insert-known self.tasks id i t task known;
    capacity = h.capacity;
    bounded = h.bounded;
  }

  remove-IsSound :
      (self : Executor F Q) (id : ℕ)
      → IsSound self
      → IsSound
          (record self { tasks = remove self.tasks id; waker_cache = remove self.waker_cache id })
  remove-IsSound self id h = record {
    keyed = λ i t there. h.keyed i t (lookup-remove-cases self.tasks id i t there).1;
    cached =
        λ i waker there. h.cached i waker (lookup-remove-cases self.waker_cache id i waker there).1;
    live = λ i waker there.
        let (ne, old) = lookup-remove-cases self.waker_cache id i waker there in
        let (t, known) = h.live i waker old in (t, lookup-remove_other self.tasks id i ne ∙ known);
    capacity = h.capacity;
    bounded = h.bounded;
  }

  waker_of-IsSound :
      (self : Executor F Q) (id : ℕ) (task : Task F)
      → IsSound self
      → lookup self.tasks id ≡ some task
      → ((waker_of self.waker_cache id).0.task_id ≡ id)
        × IsSound (record self { waker_cache = (waker_of self.waker_cache id).1 })
  unfolding waker_of
  waker_of-IsSound self id task h there = elim (Option-cases (lookup self.waker_cache id)) [
    | inr (waker, known) ↦ rw (waker_of, known) (h.cached id waker known, h)
    | inl fresh ↦
        rw (waker_of, fresh)
          (
            refl,
            record {
              keyed = h.keyed;
              cached = λ i waker e. elim (lookup-insert-cases self.waker_cache id i waker _ e) [
                | inl (own_key, same) ↦ ap (λ (x : TaskWaker). x.task_id) same ∙ sym own_key
                | inr (ne, known) ↦ h.cached i waker known
              ];
              live = λ i waker e. elim (lookup-insert-cases self.waker_cache id i waker _ e) [
                | inl (own_key, same) ↦ (task, ap (lookup self.tasks) own_key ∙ there)
                | inr (ne, known) ↦ h.live i waker known
              ];
              capacity = h.capacity;
              bounded = h.bounded;
            },
          )
  ]

  spawn-IsSound :
      (self self' : Executor F Q) (task : Task F)
      → IsSound self
      → spawn self task ≡ done self'
      → IsSound self'
  unfolding spawn
  spawn-IsSound self self' task h e = elim (Option-cases (lookup self.tasks task.id)) [
    | inr (old, there) ↦ let stopped = rw (spawn, there) at e in absurd cc
    | inl fresh ↦
        let made = rw (spawn, fresh) at e in
        let (q, pushed, same) = >>=-eq-done (expect (queue.push self.task_queue task.id)) _ made in
        let (room, listed, cap) = push-bounds self.task_queue q task.id pushed in
        let grown =
          queue-IsSound self q h
            (omega (
              arith,
              room,
              cap,
              ap (λ l. length l) listed,
              length-append (queue.items self.task_queue) (task.id ∷ []),
            ))
            cap in
        subst IsSound (done-injective _ _ same)
          (insert-IsSound (record self { task_queue = q }) task.id task grown refl)
  ]

module _ {F Q W : Type 0} ⦃queue : ArrayQueue Q ℕ⦄ ⦃fut : Future F W⦄ where
  settle-IsSound :
      (self : Executor F Q) (id : ℕ) (task : Task F) (polled : Polled F W)
      → IsSound self
      → task.id ≡ id
      → IsSound (settle self id task polled)
  unfolding settle
  settle-IsSound self id task polled h own = elim (Poll-cases polled.poll) [
    | inl e ↦ rw (settle, e) (remove-IsSound self id h)
    | inr e ↦ rw (settle, e) (insert-IsSound self id _ h own)
  ]

  poll_task-IsSound :
      (self : Executor F Q) (id : ℕ) (task : Task F) (w : W) (t : Executor F Q × W)
      → IsSound self
      → lookup self.tasks id ≡ some task
      → poll_task self id task w ≡ done t
      → IsSound t.0
  unfolding poll_task
  poll_task-IsSound self id task w t h there e =
      let (number, cached) = waker_of-IsSound self id task h there in
      let (q, woke, same) =
        >>=-eq-done (wake_all (polled_by self id task w).woken self.task_queue) _ e in
      let (le, cap) =
        wake_all-bounds (polled_by self id task w).woken self.task_queue q woke
          (omega (arith, h.bounded, h.capacity)) in
      let sound =
        settle-IsSound _ id task (polled_by self id task w) (queue-IsSound _ q cached le cap)
          (h.keyed id task there) in
      subst (λ r. IsSound r.0) (done-injective _ _ same) sound

  turn-IsSound :
      (self : Executor F Q) (w : W) (t : Executor F Q × W)
      → IsSound self
      → turn self w ≡ done (some t)
      → IsSound t.0
  unfolding turn
  turn-IsSound self w t h e = elim (List-cases (queue.items self.task_queue)) [
    | inl none_left ↦ let over = sym (turn_empty self w none_left) ∙ e in absurd cc
    | inr (id, rest, first) ↦
        let (q, popped, left, cap) = queue.pop_first self.task_queue id rest first in
        let sound =
          queue-IsSound self q h
            (omega (
              arith,
              h.bounded,
              h.capacity,
              cap,
              ap (λ l. length l) left,
              ap (λ l. length l) first,
            ))
            cap in
        elim (Option-cases (lookup self.tasks id)) [
          | inl gone ↦
              let dropped = rw (turn, popped, gone) at e in
              subst (λ r. IsSound r.0) (some-injective _ _ (done-injective _ _ dropped)) sound
          | inr (task, there) ↦
              let ran = rw (turn, popped, there) at e in
              let (r, polled, same) =
                >>=-eq-done (poll_task (record self { task_queue = q }) id task w) _ ran in
              let after =
                poll_task-IsSound (record self { task_queue = q }) id task w r sound there polled in
              subst (λ r. IsSound r.0) (some-injective _ _ (done-injective _ _ same)) after
        ]
  ]

  Step-IsSound : (s t : Executor F Q × W) → IsSound s.0 → Step s t → IsSound t.0
  unfolding wake_task
  Step-IsSound s t h (spawned task e) = spawn-IsSound s.0 _ task h e
  Step-IsSound s t h (turned e) = turn-IsSound s.0 s.1 t h e
  Step-IsSound s t h (woken waker e) =
      let (room, listed, cap) = push-bounds s.0.task_queue _ waker.task_id e in
      queue-IsSound s.0 _ h
        (omega (
          arith,
          room,
          cap,
          ap (λ l. length l) listed,
          length-append (queue.items s.0.task_queue) (waker.task_id ∷ []),
        ))
        cap
  Step-IsSound s t h (elsewhere w) = h

  from-IsSound : (s t : Executor F Q × W) → IsSound s.0 → Reach s t → IsSound t.0
  from-IsSound s t h here = h
  from-IsSound s t h (next before step) = Step-IsSound _ t (from-IsSound s _ h before) step

  -- Whatever is spawned, polled and woken, in whatever order: each task stands under its own
  -- number, each cached waker is that of a task that is not done, and the queue, of a capacity that
  -- stays 100, has at most 100 numbers.
  pub Reach-new-IsSound : (w : W) (t : Executor F Q × W) → Reach (new, w) t → IsSound t.0
  Reach-new-IsSound w t r = from-IsSound (new, w) t new-IsSound r
