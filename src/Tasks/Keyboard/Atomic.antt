-- ===== src/Tasks/Keyboard/Atomic.antt =====
-- src/task/keyboard.rs: a call of `poll_next` that no interrupt divides.
use blog_os.Base.{ℕ, ◌≡◌, refl, [], ◌∷◌, ◌++◌, Option-cases, done, true, false, ◌⊎◌, inl, inr}
use blog_os.Tasks.Queues.{ArrayQueue}
use blog_os.Tasks.Keyboard.{
  OnceCell, AtomicWaker, Statics, Polled, ready, pending, pop, register, take_waker, poll_next,
}
use blog_os.Tasks.Keyboard.Interleaving.{
  outside, registered, waiting, System, fast, check, enlist, second, wait, finish, Reach, here,
  next,
}

module _ {C Q A : Type 0} ⦃once : OnceCell C⦄ ⦃queue : ArrayQueue Q ℕ⦄ ⦃atomic : AtomicWaker A⦄
    (id : ℕ) where
  -- The system behind such a call.
  abbrev pub behind : System C Q A → Polled × Statics C Q A → System C Q A
  behind s (ready c, statics) = record s {
    statics = statics;
    place = outside;
    notified = false;
    delivered = s.delivered ++ (c ∷ []);
  }
  behind s (pending, statics) = record s { statics = statics; place = waiting; notified = false }

  -- After `ScancodeStream::new`, `poll_next` returns, and what it leaves is what the reader's steps
  -- leave when no interrupt comes between them.
  pub poll_next-Reach :
      (s : System C Q A)
      → (s.place ≡ outside) ⊎ (s.place ≡ waiting)
      → once.try_get s.statics.cell ≡ true
      → (r : Polled × Statics C Q A) × (poll_next id s.statics ≡ done r) × Reach id s (behind s r)
  unfolding poll_next
  poll_next-Reach s at init = elim (Option-cases (pop s.statics)) [
    | inr (first, got) ↦
        ((ready first.0, first.1), rw (poll_next, init, got) refl, next here (fast first.0 at got))
    | inl empty ↦
        let two : Reach id s
            (record s { statics = register id s.statics; place = registered; notified = false }) =
          next (next here (check at empty)) (enlist refl) in
        elim (Option-cases (pop (register id s.statics))) [
          | inr (later, got) ↦ (
            (ready later.0, take_waker later.1),
            rw (poll_next, init, empty, got) refl,
            next (next two (second later.0 refl got)) (finish later.0 refl),
          )
          | inl still ↦ (
            (pending, register id s.statics),
            rw (poll_next, init, empty, still) refl,
            next two (wait refl still),
          )
        ]
  ]
