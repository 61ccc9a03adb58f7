-- ===== src/Tasks/Keyboard/Calls.antt =====
-- src/task/keyboard.rs: what `add_scancode` and a `pop` do to the queue.
use native.Mathlib.Decide.{dec_lt}
use blog_os.Base.{
  ℕ, ◌≤◌, ◌≡◌, refl, ap, sym, ◌∙◌, [], ◌∷◌, ◌++◌, length, List-cases, none, some, some-injective,
  true, ◌⊎◌, inl, inr, arith,
}
use blog_os.Tasks.Queues.{ArrayQueue}
use blog_os.Tasks.Keyboard.{OnceCell, AtomicWaker, Statics, warned_full, queued, add_scancode, pop}

module _ {C Q A : Type 0} ⦃once : OnceCell C⦄ ⦃queue : ArrayQueue Q ℕ⦄
    ⦃atomic : AtomicWaker A⦄ where
  -- `s'` is `s` with the scancode behind the others and no waker, which was called.
  pub record Queued (scancode : ℕ) (s s' : Statics C Q A) : Type 0 where
    pub cell_same : s'.cell ≡ s.cell
    pub listed : queue.items s'.scancode_queue ≡ queue.items s.scancode_queue ++ (scancode ∷ [])
    pub cap_same : queue.cap s'.scancode_queue ≡ queue.cap s.scancode_queue

  pub add_scancode_lem :
      (scancode : ℕ) (s : Statics C Q A)
      → once.try_get s.cell ≡ true
      → ((add_scancode scancode s ≡ (warned_full, s))
          × (queue.cap s.scancode_queue ≤ length (queue.items s.scancode_queue)))
        ⊎ ((s' : Statics C Q A) × (add_scancode scancode s
              ≡ (queued (atomic.registered s.scancode_waker), s'))
            × Queued scancode s s')
  unfolding add_scancode
  add_scancode_lem scancode s init =
      elim (dec_lt (length (queue.items s.scancode_queue)) (queue.cap s.scancode_queue)) [
        | no full ↦
            let refused = queue.push_full s.scancode_queue scancode (omega arith) in
            inl (rw (add_scancode, init, refused) refl, omega arith)
        | yes room ↦
            let (q, pushed, listed, cap) = queue.push_room s.scancode_queue scancode room in
            inr (
              record s { scancode_queue = q; scancode_waker = (atomic.wake s.scancode_waker).1 },
              rw (add_scancode, init, pushed, ← atomic.wake_calls s.scancode_waker) refl,
              record { cell_same = refl; listed = listed; cap_same = cap },
            )
      ]

  pub pop-some :
      (s : Statics C Q A) (c : ℕ) (s' : Statics C Q A)
      → pop s ≡ some (c, s')
      → (queue.items s.scancode_queue ≡ c ∷ queue.items s'.scancode_queue)
        × (queue.cap s'.scancode_queue ≡ queue.cap s.scancode_queue)
        × (s'.cell ≡ s.cell)
        × (s'.scancode_waker ≡ s.scancode_waker)
  unfolding pop
  pop-some s c s' h = elim (List-cases (queue.items s.scancode_queue)) [
    | inl e ↦ let stopped = rw (pop, queue.pop_empty s.scancode_queue e) at h in absurd cc
    | inr (first, rest, e) ↦
        let (q, popped, left, cap) = queue.pop_first s.scancode_queue first rest e in
        let given = some-injective _ _ (rw (pop, popped) at h) in
        let same : record s { scancode_queue = q } ≡ s' = ap (λ r. r.1) given in
        let byte : first ≡ c = ap (λ r. r.0) given in
        (
          e ∙ rw (byte, ← left) (ap (λ t. c ∷ queue.items t.scancode_queue) same),
          ap (λ t. queue.cap t.scancode_queue) (sym same) ∙ cap,
          ap (λ t. t.cell) (sym same),
          ap (λ t. t.scancode_waker) (sym same),
        )
  ]

  pub pop-none : (s : Statics C Q A) → pop s ≡ none → queue.items s.scancode_queue ≡ []
  unfolding pop
  pop-none s h = elim (List-cases (queue.items s.scancode_queue)) [
    | inl e ↦ e
    | inr (first, rest, e) ↦
        let (q, popped, left, cap) = queue.pop_first s.scancode_queue first rest e in
        let given = rw (pop, popped) at h in absurd cc
  ]
