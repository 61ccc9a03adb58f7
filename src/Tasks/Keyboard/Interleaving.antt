-- ===== src/Tasks/Keyboard/Interleaving.antt =====
-- src/task/keyboard.rs: a reader of the stream, and keyboard interrupts between any two of its
-- steps. There is one processor, so the interrupt handler runs from its start to its end.
use blog_os.Base.{ℕ, ◌≡◌, List, [], ◌∷◌, ◌++◌, none, some, Bool, false, ◌||◌, ◌==◌, ◌⊎◌}
use blog_os.Tasks.Queues.{ArrayQueue}
use blog_os.Tasks.Keyboard.{
  OnceCell, AtomicWaker, Statics, Added, warned_full, warned_uninitialized, queued, add_scancode,
  pop, register, take_waker,
}

-- Where the reader stands: outside `poll_next` with what it asked for, behind the first `pop`,
-- behind `register`, behind a second `pop` that gave a scancode, and outside with `Pending`.
pub data Place : Type 0 where
  outside checked registered : Place
  holding : ℕ → Place
  waiting : Place

-- `notified`: the reader's waker was called since `poll_next` began. `accepted` and `delivered` are
-- the scancodes that were queued and that `poll_next` returned, in order.
pub record System (C Q A : Type 0) : Type 0 where
  pub statics : Statics C Q A
  pub place : Place
  pub notified : Bool
  pub accepted : List ℕ
  pub delivered : List ℕ

-- Whether a call of this waker notifies the reader, and the scancodes that the handler queued.
abbrev pub calls : ℕ → Added → Bool
calls id warned_full = false
calls id warned_uninitialized = false
calls id (queued none) = false
calls id (queued (some called)) = called == id

abbrev pub accepts : ℕ → Added → List ℕ
accepts scancode warned_full = []
accepts scancode warned_uninitialized = []
accepts scancode (queued called) = scancode ∷ []

module _ {C Q A : Type 0} ⦃once : OnceCell C⦄ ⦃queue : ArrayQueue Q ℕ⦄ ⦃atomic : AtomicWaker A⦄
    (id : ℕ) where
  pub data Step (s : System C Q A) : System C Q A → Type 0 where
    interrupt :
        (scancode : ℕ) {added : Added} {statics : Statics C Q A}
        → add_scancode scancode s.statics ≡ (added, statics)
        → Step s (record s {
          statics = statics;
          notified = s.notified || calls id added;
          accepted = s.accepted ++ accepts scancode added;
        })
    fast :
        (c : ℕ) {statics : Statics C Q A}
        → (s.place ≡ outside) ⊎ (s.place ≡ waiting)
        → pop s.statics ≡ some (c, statics)
        → Step s (record s {
          statics = statics;
          place = outside;
          notified = false;
          delivered = s.delivered ++ (c ∷ []);
        })
    check :
        (s.place ≡ outside) ⊎ (s.place ≡ waiting)
        → pop s.statics ≡ none
        → Step s (record s { place = checked; notified = false })
    enlist :
        s.place ≡ checked
        → Step s (record s { statics = register id s.statics; place = registered })
    second :
        (c : ℕ) {statics : Statics C Q A}
        → s.place ≡ registered
        → pop s.statics ≡ some (c, statics)
        → Step s (record s { statics = statics; place = holding c })
    wait : s.place ≡ registered → pop s.statics ≡ none → Step s (record s { place = waiting })
    finish :
        (c : ℕ)
        → s.place ≡ holding c
        → Step s (record s {
          statics = take_waker s.statics;
          place = outside;
          delivered = s.delivered ++ (c ∷ []);
        })

  pub data Reach (s : System C Q A) : System C Q A → Type 0 where
    here : Reach s s
    next : {t u : System C Q A} → Reach s t → Step t u → Reach s u

-- The reader has made its stream and has not polled it.
abbrev pub started : {C Q A : Type 0} → Statics C Q A → System C Q A
started statics = record {
  statics = statics;
  place = outside;
  notified = false;
  accepted = [];
  delivered = [];
}
